-- ===== src/Lib.antt =====
-- The authorization core of JIMM, its logins and sessions, its proxy of Juju connections, and the cache
-- of Juju binaries.
--
-- JIMM keeps who may do what as relationship tuples in OpenFGA. A request comes in for an
-- authenticated user (internal/openfga/user.go), the permission manager (internal/jimm/permissions)
-- decides whether the caller may make it and what has to change, and the OpenFGA client
-- (internal/openfga/openfga.go) reads, checks and writes the tuples.
--
-- Parts, files and code
--   Prelude          shared names: decidable equality, lists, selections, integers
--   Errors           internal/errors/errors.go: error values, and results
--   Exec             actions on a state that may fail; Exec/Batches is the Go loop over slices of a
--                    slice, Exec/Rules the cases in which an action can end
--   IdPGroup         pkg/names/idp_group.go: IsValidIdPGroupId
--   Ofga/Names       internal/openfga/names/names.go: kinds, relations, ConvertTag, ParseRelation
--   Ofga/Tuples      tuples, the tuples that a partial tuple stands for, publicAccessAdaptor
--   Ofga/Server      what the client relies on of OpenFGA and github.com/canonical/ofga: a record of
--                    calls, and records of laws for reads, writes and checks
--   Ofga/Client      internal/openfga/openfga.go: one function for each method of OFGAClient
--   Ofga/Removal     removeTuples; Ofga/Cleanup: RemoveModel, RemoveRole, RemoveGroup
--   Ofga/Memory      a server in memory that meets the laws; the tests run on it
--   User             internal/openfga/user.go: ContextualTuples, checkRelation, the Get...Access,
--                    Set...Access and Unset...Access methods, ListModels, CheckPermission
--   Access           internal/jimm/permissions/access.go: GrantCloudAccess, RevokeCloudAccess,
--                    GrantModelAccess, RevokeModelAccess, the audit log's access; Access/Words has the
--                    conversions between words and relations, Access/Offers the offers and
--                    GetJimmControllerAccess
--   Relations        internal/jimm/permissions/relations.go: AddRelation, RemoveRelation,
--                    CheckRelation, authorizeRelationTargetAdmin, parseTuple; Relations/Listing has
--                    CheckRelations and the listings in pages
--   Access/Permissions
--                    CheckPermission of access.go, which adds to a map that its caller keeps;
--                    Access/Orphans is OpenFGACleanup
--   OfferAuthorizer  internal/jimm/offer/authorizer.go: IsUserConsumerForOffer
--   Tokens           internal/jimm/jujuauth/logintokens.go and factory.go: LoginTokenGenerator with
--                    MakeLoginToken and MakeToken; Tokens/Factory the tokens of Factory, Tokens/Ssh
--                    sshtokens.go
--   RpcProxy         internal/rpcproxy: messages and state; RpcProxy/Messages the error responses,
--                    checkPermissionsRequired and the audit log, RpcProxy/Demands what a response asks
--                    for, RpcProxy/Client clientProxy,
--                    RpcProxy/Controller controllerProxy, RpcProxy/Session a connection as a sequence
--                    of messages from both sides
--   Pagination       internal/common/pagination/pagination.go, on 64-bit words;
--                    Pagination/Entitlement is entitlement.go, Pagination/Order the order of its
--                    tokens
--   Auth             internal/auth/auth.go: Auth/Groups the groups in a claim, Auth/Service session
--                    tokens and client credentials, Auth/Sessions the sessions of browsers and Logout;
--                    the parent has the interfaces of the libraries and of the identity table
--   Login            internal/jimm/login/login.go and pkg/names/service_account.go: LoginManager over an
--                    OAuthAuthenticator, which Login/Service fills with the service of Auth
--   Managers         internal/jimm/group, internal/jimm/role and internal/jimm/identity: the three
--                    managers, each over a database interface and the client of Ofga
--   PubSub           internal/pubsub/hub.go: the hub, as a sequence of operations under its lock
--   CliStore         internal/jujuclistore/store.go: the limit, Get, freeEntry and Done
--
-- State. An operation is a function from a state to a result and a state, so what a failed call
-- leaves behind is part of the model. The state is that of the OpenFGA server, of which the laws know
-- the stored tuples; for CliStore it is what the store's lock protects. Calls of other services (the
-- identity table, resolution of names, downloads, the file system, random choice) are fields of an
-- interface record, and the laws that a theorem needs of them are its hypotheses.
--
-- A Juju client talks to the controller of a model through RpcProxy. It logs in with JIMM, which writes
-- a login of its own to the controller, with a token from Tokens; where the controller then asks for
-- more permissions, it logs in again with a token for them, which MakeToken checks by
-- Access/Permissions and these by the batches of Ofga/Client. The proxy knows the token generator and
-- the login service as an interface. Both directions share one state: the messages are cells, so that
-- a login that is written over is also written over among the requests in flight.
--
-- A user comes to JIMM through Login: an identity provider, a session token or a browser's session
-- vouches for a name and groups (Auth), the row of the identity is read or created, and User asks
-- the authorization model whether the name administers JIMM. The Managers go by what it has answered
-- then.
--
-- Fuel. removeTuples and unsetMultipleResourceAccesses loop until the server sends no continuation
-- token. The model bounds their rounds; each round but the last has at least one tuple, so more
-- rounds than there are tuples are enough, and the theorems prove that the calls then end. A page of
-- the relations of an object takes one round for each of the kinds at most, and one for each tuple
-- of the page. The batches of AddRelation and BatchCheckRelations are as many as the list is long at
-- most.
--
-- Not modelled. Other clients that change tuples between the calls of one operation. Cancelled
-- contexts, metrics and logs; the log of user updates in AddRelation and RemoveRelation. The
-- normalisation of user names by names.UserTag: names are taken in normal form. Formatted messages
-- are shortened where nothing reads them. The resolution of tags. In RpcProxy each message is
-- handled in one step; two messages that are handled at the same time are not interleaved. JSON,
-- base64, JWT, OAuth and the session store are interfaces. A handler of the hub is called within the
-- operation that starts it, so that handlers which run at the same time are not interleaved.
pub mod Prelude
pub mod Errors
pub mod Exec
pub mod IdPGroup
pub mod Ofga
pub mod User
pub mod Pagination
pub mod Access
pub mod Relations
pub mod OfferAuthorizer
pub mod Tokens
pub mod RpcProxy
pub mod CliStore
pub mod Auth
pub mod Login
pub mod Managers
pub mod PubSub
