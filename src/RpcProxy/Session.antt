-- ===== src/RpcProxy/Session.antt =====
-- ProxySockets: a connection as the sequence of the messages that the client and the controller
-- send, and of the reads that fail.
use jimm.Prelude.{Bool, true, false, Option, none, some, List, [], ◌∷◌, if◌then◌else◌}
use jimm.Errors.{Result, ok}
use jimm.RpcProxy.{Message, new_message, Helpers, ModelProxy, Outcome, next, Proxy}
use jimm.RpcProxy.Client.{client_message}
use jimm.RpcProxy.Controller.{controller_message}

pub data Event : Type 0 where
  client_sends : Message → Event
  controller_sends : Message → Event
  client_read_fails : Event
  controller_read_fails : Event

abbrev goes_on : Result Outcome → Bool
goes_on (ok next) = true
goes_on r = false

abbrev no_proxy : ModelProxy
no_proxy = record {
  anonymous_login = false;
  model_name = "";
  model_uuid = "";
  model_migration_mode = "";
  device_oauth_response = none;
}

module _ (E : Helpers) where
  -- the state that ProxySockets sets up
  unfoldable pub new_session : E.World → Proxy E
  new_session w = record {
    world = w;
    cell = λ p. new_message 0;
    fresh = 0;
    login_message = none;
    messages = [];
    connect_controller_done = false;
    client = no_proxy;
    controller = none;
    client_open = true;
    controller_open = false;
    to_controller = [];
    to_client = [];
  }

  -- A direction that has ended reads no more.
  abbrev pub client_step : Message → Proxy E → Proxy E
  client_step m s = let (r, t) = client_message E m s in record t { client_open = goes_on r }

  abbrev pub controller_step : Message → Option ModelProxy → Proxy E → Proxy E
  controller_step m none s = s
  controller_step m (some c) s =
      let (r, t) = controller_message E c m s in record t { controller_open = goes_on r }

  unfoldable pub step : Event → Proxy E → Proxy E
  unfolding client_message controller_message
  step (client_sends m) s = if s.client_open then client_step m s else s
  step (controller_sends m) s = if s.controller_open then controller_step m s.controller s else s
  step client_read_fails s = record s { client_open = false }
  step controller_read_fails s = record s { controller_open = false }

  unfoldable pub run : List Event → Proxy E → Proxy E
  unfolding step
  run [] s = s
  run (e ∷ es) s = run es (step e s)
