-- ===== src/RpcProxy/Demands.antt =====
-- checkPermissionsRequired of rpcproxy.go, against what a response of the controller says.
use mathlib.Core.List.{Memᴰ}
use mathlib.Core.List.Memᴰ as Memᴰ
use mathlib.Core.List.Memᴰ.{head, tail}
use jimm.Prelude.{
  ◌≡◌, ◌≢◌, ◌⊎◌, inl, inr, ◌↔◌, refl, sym, ap, subst, ◌∙◌, String, Option, none, some, List, [],
  ◌∷◌, ◌==◌, string_eq, eq_iff, Bool-cases, false≢true, arith,
}
use jimm.Errors.{Value, string_value, other_value, Result, ok, err, spent}
use jimm.Exec.Rules.{ok-injective}
use jimm.RpcProxy.{Message, Failure, Helpers}
use jimm.RpcProxy.Messages.{
  access_required_error_code, or_empty, gather_info, then_gather, gather, bulk_permissions,
  in_response, check_permissions_required,
}

-- A permission with its level.
abbrev Entry : Type 0
Entry = String × Value

-- The entry is in the info of one of the results, which says that access is required.
abbrev pub Reported : List (Option Failure) → String × Value → Type 0
Reported results p =
    (f : Failure) × Memᴰ (some f) results × (f.code ≡ "access required") × Memᴰ p f.info

-- The response asks for these permissions: as an error, or in the results of a bulk request.
pub data Demanded (E : Helpers) (m : Message) (permissions : List (String × Value)) : Type 0 where
  by_error :
      m.error_code ≡ "access required" → m.error_info ≡ some permissions → Demanded E m permissions
  by_results :
      (response : String) (results : List (Option Failure))
      → m.error_code ≢ "access required"
      → m.response ≡ some response
      → E.decode_error_results response ≡ ok results
      → ((p : String × Value) → Memᴰ p permissions ↔ Reported results p)
      → Demanded E m permissions

gather_info-Mem :
    (info : List Entry) (required o : Option (List Entry))
    → gather_info info required ≡ ok o
    → (p : Entry) → Memᴰ p (or_empty o) ↔ (Memᴰ p (or_empty required) ⊎ Memᴰ p info)
unfolding gather_info
gather_info-Mem [] required o e p =
    let same : required ≡ o = ok-injective e in
    (
      λ m. inl (subst (λ q. Memᴰ p (or_empty q)) (sym same) m),
      λ s. elim s [ inl m ↦ subst (λ q. Memᴰ p (or_empty q)) same m | inr m ↦ elim m [ ] ],
    )
gather_info-Mem ((k, string_value v) ∷ info) required o e p =
    let rest = gather_info-Mem info (some ((k, string_value v) ∷ or_empty required)) o e p in
    (
      λ m. elim (rest.0 m) [
        | inl n ↦ elim (Memᴰ.cases_cons n) [ inl q ↦ inr (head q) | inr old ↦ inl old ]
        | inr n ↦ inr (tail n)
      ],
      λ s. rest.1 (elim s [
        | inl m ↦ inl (tail m)
        | inr m ↦ elim (Memᴰ.cases_cons m) [ inl q ↦ inl (head q) | inr n ↦ inr n ]
      ]),
    )
gather_info-Mem ((k, other_value) ∷ info) required o e p = absurd (cc e)

Reported-tail :
    (r : Option Failure) (results : List (Option Failure)) (p : Entry)
    → Reported results p
    → Reported (r ∷ results) p
Reported-tail r results p (f, m, q, i) = (f, tail m, q, i)

failure-injective : {f g : Failure} → some f ≡ some g → f ≡ g
failure-injective {f} e = ap or e
  where
    or : Option Failure → Failure
    or none = f
    or (some g) = g

-- An entry of the results comes from the first of them or from the others.
Reported-cases :
    (e : Failure) (results : List (Option Failure)) (p : Entry)
    → Reported (some e ∷ results) p
    → ((e.code ≡ "access required") × Memᴰ p e.info) ⊎ Reported results p
Reported-cases e results p (f, m, q, i) = elim (Memᴰ.cases_cons m) [
  | inl same ↦
      let s : f ≡ e = failure-injective same in
      inl (subst (λ (g : Failure). (g.code ≡ "access required") × Memᴰ p g.info) s (q, i))
  | inr n ↦ inr (f, n, q, i)
]

then_gather-ok :
    {A B : Type 0} (r : Result A) (f : A → Result B) (b : B)
    → then_gather r f ≡ ok b
    → (a : A) × (r ≡ ok a) × (f a ≡ ok b)
then_gather-ok (ok a) f b e = (a, refl, e)
then_gather-ok (err x) f b e = absurd (cc e)
then_gather-ok spent f b e = absurd (cc e)

gather-Mem :
    (results : List (Option Failure)) (required o : Option (List Entry))
    → gather results required ≡ ok o
    → (p : Entry) → Memᴰ p (or_empty o) ↔ (Memᴰ p (or_empty required) ⊎ Reported results p)
unfolding gather
gather-Mem [] required o e p =
    let same : required ≡ o = ok-injective e in
    (
      λ m. inl (subst (λ q. Memᴰ p (or_empty q)) (sym same) m),
      λ s. elim s [
        | inl m ↦ subst (λ q. Memᴰ p (or_empty q)) same m
        | inr (f, m, q, i) ↦ elim m [ ]
      ],
    )
gather-Mem (none ∷ results) required o e p =
    let rest = gather-Mem results required o e p in
    (
      λ m. elim (rest.0 m) [ inl n ↦ inl n | inr r ↦ inr (Reported-tail none results p r) ],
      λ s. rest.1 (elim s [
        | inl m ↦ inl m
        | inr (f, m, q, i) ↦ elim (Memᴰ.cases_cons m) [
          | inl bad ↦ absurd (cc bad)
          | inr n ↦ inr (f, n, q, i)
        ]
      ]),
    )
gather-Mem (some f ∷ results) required o e p =
    elim (Bool-cases (f.code == access_required_error_code)) [
      | inl asks ↦
          let code : f.code ≡ "access required" = (eq_iff f.code "access required").0 asks in
          let (some_more, e1, e2) =
            then_gather-ok (gather_info f.info required) (gather results) o
              (ground (arith, e, asks)) in
          let first = gather_info-Mem f.info required some_more e1 p in
          let rest = gather-Mem results some_more o e2 p in
          (
            λ m. elim (rest.0 m) [
              | inl n ↦ elim (first.0 n) [
                | inl old ↦ inl old
                | inr new ↦ inr (f, head refl, code, new)
              ]
              | inr r ↦ inr (Reported-tail (some f) results p r)
            ],
            λ s. rest.1 (elim s [
              | inl m ↦ inl (first.1 (inl m))
              | inr r ↦ elim (Reported-cases f results p r) [
                | inl (_, i) ↦ inl (first.1 (inr i))
                | inr later ↦ inr later
              ]
            ]),
          )
      | inr other ↦
          let rest = gather-Mem results required o (ground (arith, e, other)) p in
          (
            λ m. elim (rest.0 m) [
              | inl n ↦ inl n
              | inr r ↦ inr (Reported-tail (some f) results p r)
            ],
            λ s. rest.1 (elim s [
              | inl m ↦ inl m
              | inr r ↦ elim (Reported-cases f results p r) [
                | inl (q, _) ↦
                    absurd (false≢true (sym other ∙ (eq_iff f.code "access required").1 q))
                | inr later ↦ inr later
              ]
            ]),
          )
    ]

module _ (E : Helpers) (m : Message) (permissions : List Entry) where
  bulk-Demanded :
      (response : String) (d : Result (List (Option Failure)))
      → m.error_code ≢ "access required"
      → m.response ≡ some response
      → E.decode_error_results response ≡ d
      → bulk_permissions E d ≡ ok (some permissions)
      → Demanded E m permissions
  bulk-Demanded response (ok results) c q d e = by_results response results c q d (λ p.
      let all = gather-Mem results none (some permissions) e p in
      (λ z. elim (all.0 z) [ inl n ↦ elim n [ ] | inr r ↦ r ], λ r. all.1 (inr r)))
  bulk-Demanded response (err x) c q d e = absurd (cc e)
  bulk-Demanded response spent c q d e = absurd (cc e)

  response-Demanded :
      (r : Option String)
      → m.error_code ≢ "access required"
      → m.response ≡ r
      → in_response E r ≡ ok (some permissions)
      → Demanded E m permissions
  response-Demanded none c q e = absurd (cc e)
  response-Demanded (some r) c q e = elim (Bool-cases (r == "")) [
    | inl blank ↦ absurd (ground (arith, e, blank))
    | inr some_text ↦
        bulk-Demanded r (E.decode_error_results r) c q refl (ground (arith, e, some_text))
  ]

  -- The permissions that checkPermissionsRequired finds are those that the response asks for.
  pub check_permissions_required-Demanded :
      check_permissions_required E m ≡ ok (some permissions) → Demanded E m permissions
  unfolding check_permissions_required
  check_permissions_required-Demanded e =
      elim (Bool-cases (m.error_code == access_required_error_code)) [
        | inl asks ↦
            by_error ((eq_iff m.error_code "access required").0 asks)
              (ok-injective (ground (arith, e, asks)))
        | inr other ↦
            response-Demanded m.response
              (λ q. false≢true (sym other ∙ (eq_iff m.error_code "access required").1 q)) refl
              (ground (arith, e, other))
      ]
