-- ===== src/Ofga/Tuples.antt =====
-- Relationship tuples (cofga.Tuple), their equality, and the tuples that a partial tuple stands for.
use jimm.Prelude.{
  String, Bool, true, false, ◌&&◌, ◌||◌, ◌≡◌, refl, ap, ◌↔◌, Option, none, some, arith, eq_iff,
  Comparable, ◌==◌, Bool-cases, inl, inr, if◌then◌else◌, string_eq, option_eq, option_beq_iff,
  ==_refl, subst,
}
use jimm.Ofga.Names.{Tag, user_kind, everyone_user}

abbrev pub tag_beq : Tag → Tag → Bool
tag_beq a b = a.kind == b.kind && (a.id == b.id && a.relation == b.relation)

pub tag_beq_iff : (a b : Tag) → (tag_beq a b ≡ true) ↔ (a ≡ b)
tag_beq_iff a b = (
  λ h. ground (arith, eq_iff a.kind b.kind, eq_iff a.id b.id, eq_iff a.relation b.relation),
  λ h. ground (
    arith,
    eq_iff a.kind b.kind,
    eq_iff a.id b.id,
    eq_iff a.relation b.relation,
    ap (λ (t : Tag). t.kind) h,
    ap (λ (t : Tag). t.id) h,
    ap (λ (t : Tag). t.relation) h,
  ),
)

instance abbrev pub tag_eq : Comparable Tag
tag_eq = record { same = tag_beq; same_iff = tag_beq_iff }

-- `none` is a nil object or target, as in the partial tuple of a query.
pub record Tuple : Type 0 where
  pub object : Option Tag
  pub relation : String
  pub target : Option Tag

abbrev pub tuple_beq : Tuple → Tuple → Bool
tuple_beq a b = a.object == b.object && (a.relation == b.relation && a.target == b.target)

pub tuple_beq_iff : (a b : Tuple) → (tuple_beq a b ≡ true) ↔ (a ≡ b)
tuple_beq_iff a b = (
  λ h. ground (
    arith,
    option_beq_iff a.object b.object,
    eq_iff a.relation b.relation,
    option_beq_iff a.target b.target,
  ),
  λ h.
      subst (λ x. tuple_beq a x ≡ true) h
        (ground (arith, ==_refl a.object, ==_refl a.relation, ==_refl a.target)),
)

instance abbrev pub tuple_eq : Comparable Tuple
tuple_eq = record { same = tuple_beq; same_iff = tuple_beq_iff }

-- How the server's Read treats a partial tag: none stands for any, a tag with no id for its kind.
abbrev pub tag_matches : Option Tag → Option Tag → Bool
tag_matches none t = true
tag_matches (some p) none = false
tag_matches (some p) (some t) = if p.id == "" then p.kind == t.kind else p == t

-- The stored tuples that a Read with the partial tuple `p` is about.
unfoldable pub matches : Tuple → Tuple → Bool
matches p t =
    tag_matches p.object t.object
    && ((p.relation == "" || p.relation == t.relation) && tag_matches p.target t.target)

-- The user object "user:*": IsPublicAccess, with the test of the kind.
abbrev pub is_everyone : Tag → Bool
is_everyone o = o.kind == user_kind && o.id == "*"

abbrev pub object_is_public : Option Tag → Bool
object_is_public none = false
object_is_public (some o) = is_everyone o

unfoldable pub is_public : Tuple → Bool
is_public t = object_is_public t.object

abbrev pub adapt_object : Option Tag → Option Tag
adapt_object none = none
adapt_object (some o) = some (if is_everyone o then record o { id = everyone_user } else o)

-- publicAccessAdaptor: "user:*" is shown as the everyone user. What the server stores has an object.
unfoldable pub public_access_adaptor : Tuple → Tuple
public_access_adaptor t = record t { object = adapt_object t.object }

object_is_public-adapt : (o : Option Tag) → object_is_public (adapt_object o) ≡ false
object_is_public-adapt none = refl
object_is_public-adapt (some o) = elim (Bool-cases (is_everyone o)) [
  | inl e ↦ rw e (ground arith)
  | inr e ↦ rw e e
]

-- The adaptor leaves no public access in a tuple.
pub is_public-adaptor : (t : Tuple) → is_public (public_access_adaptor t) ≡ false
unfolding is_public public_access_adaptor
is_public-adaptor t = object_is_public-adapt t.object

adapt_other : (o : Option Tag) → object_is_public o ≡ false → adapt_object o ≡ o
adapt_other none h = refl
adapt_other (some o) h = rw h

-- It changes only public access.
pub adaptor_other : (t : Tuple) → is_public t ≡ false → public_access_adaptor t ≡ t
unfolding is_public public_access_adaptor
adaptor_other t h = ap (λ o. record t { object = o }) (adapt_other t.object h)
