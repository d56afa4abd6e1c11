-- ===== src/Budget/Tallies.antt =====
-- What one more reservation adds to the usage of a run.
use aura_claw.Prelude.{
  ℕ, ◌+◌, ◌≤◌, String, ◌≡◌, refl, sym, ap, ◌∙◌, inl, inr, true, false, not, ◌&&◌, List, [], ◌∷◌,
  ◌++◌, arith, if◌then◌else◌, Bool-cases, ◌==◌, contains, option_eq, pair_eq, triple_eq, string_eq,
  nat_eq, ==→eq, length, count_where, length-append, Result, ok, ◌>>=◌, ok-injective, >>=-eq-ok,
}
use aura_claw.Prelude.Dict
use aura_claw.Prelude.Dict.{
  Dict, get-put, get-remove, get-put_self, get-remove_self, put-put_self, dict_laws,
}
use aura_claw.Budget.Types.{Reservation}
use aura_claw.Budget.Usage.{Turn, read_int, ids_of, model_turns, is_settled, outstanding}

abbrev pub steps_of : Dict String Reservation → Dict String Turn → ℕ
steps_of reserved turns = model_turns reserved turns + length (ids_of "tool" reserved)

ids_of-append :
    (kind : String) (d : Dict String Reservation) (id : String) (r : Reservation)
    → ids_of kind (d ++ (id, r) ∷ []) ≡ ids_of kind d ++ (if r.kind == kind then id ∷ [] else [])
unfolding ids_of
ids_of-append kind [] id r = ground arith
ids_of-append kind (entry ∷ d) id r = ground (arith, ids_of-append kind d id r)

contains-append :
    (xs ys : List String) (k : String) → contains xs k ≡ true → contains (xs ++ ys) k ≡ true
contains-append [] ys k h = cc
contains-append (x ∷ xs) ys k h = ground (arith, contains-append xs ys k)

fewer :
    (xs ys keys : List String)
    → count_where (λ k. not (contains (xs ++ ys) k)) keys
      ≤ count_where (λ k. not (contains xs k)) keys
fewer xs ys [] = omega arith
fewer xs ys (k ∷ keys) = ground (arith, fewer xs ys keys, contains-append xs ys k)

model_ne_tool : (let kind : String = "model" in kind == "tool") ≡ false
unfolding string_eq
model_ne_tool = refl

not_both : (kind : String) → (kind == "model") ≡ true → (kind == "tool") ≡ false
not_both kind h = ap (λ k. k == "tool") (==→eq kind "model" h) ∙ model_ne_tool

added : String → String → String → List String
added kind id wanted = if kind == wanted then id ∷ [] else []

one_kind : (kind id : String) → length (added kind id "model") + length (added kind id "tool") ≤ 1
unfolding added
one_kind kind id = elim (Bool-cases (kind == "model")) [
  | inl e ↦ rw (e, not_both kind e) (omega arith)
  | inr e ↦ ground arith
]

-- One reservation is one step at most.
pub steps_of-append :
    (d : Dict String Reservation) (turns : Dict String Turn) (id : String) (r : Reservation)
    → steps_of (d ++ (id, r) ∷ []) turns ≤ steps_of d turns + 1
unfolding model_turns added
steps_of-append d turns id r =
    let model = added r.kind id "model" in
    let tool = added r.kind id "tool" in
    rw (ids_of-append "model" d id r, ids_of-append "tool" d id r)
      (omega (
        arith,
        one_kind r.kind id,
        fewer (ids_of "model" d) model (Dict.keys turns),
        length-append (ids_of "model" d) model,
        length-append (ids_of "tool" d) tool,
      ))

charge : Dict String Turn → String → Reservation → Result ℕ
charge turns id r =
    if r.kind == "model" && not (is_settled turns id) then read_int 0 r.output_tokens else ok 0

charge-le :
    (turns : Dict String Turn) (id : String) (r : Reservation) {tokens : ℕ}
    → read_int 0 r.output_tokens ≡ ok tokens
    → (c : ℕ) × (charge turns id r ≡ ok c) × (c ≤ tokens)
unfolding charge
charge-le turns id r {tokens} h =
    elim (Bool-cases (r.kind == "model" && not (is_settled turns id))) [
      | inl e ↦
          (tokens, ap (λ b. if b then read_int 0 r.output_tokens else ok 0) e ∙ h, omega arith)
      | inr e ↦ (0, ap (λ b. if b then read_int 0 r.output_tokens else ok 0) e, omega arith)
    ]

outstanding-cons :
    (turns : Dict String Turn) (id : String) (r : Reservation) (d : Dict String Reservation)
    → outstanding turns ((id, r) ∷ d)
      ≡ (outstanding turns d >>= (λ more. charge turns id r >>= (λ c. ok (c + more))))
unfolding outstanding charge
outstanding-cons turns id r d = refl

-- One reservation adds at most its tokens to what is outstanding.
pub outstanding-append :
    (turns : Dict String Turn) (d : Dict String Reservation) (id : String) (r : Reservation)
    {waiting tokens : ℕ}
    → outstanding turns d ≡ ok waiting
    → read_int 0 r.output_tokens ≡ ok tokens
    → (more : ℕ) × (outstanding turns (d ++ (id, r) ∷ []) ≡ ok more) × (more ≤ waiting + tokens)
unfolding outstanding
outstanding-append turns [] id r {waiting} {tokens} h t =
    let (c, charged, le) = charge-le turns id r t in
    (c + 0, outstanding-cons turns id r [] ∙ ap (λ x. x >>= (λ c. ok (c + 0))) charged, omega arith)
outstanding-append turns ((j, q) ∷ d) id r {waiting} {tokens} h t =
    let (w, rest, h') =
      >>=-eq-ok (outstanding turns d) _ (sym (outstanding-cons turns j q d) ∙ h) in
    let (c, charged, sum) = >>=-eq-ok (charge turns j q) _ h' in
    let (more, found, le) =
      outstanding-append turns d id r {waiting = w} {tokens = tokens} rest t in
    (
      c + more,
      outstanding-cons turns j q (d ++ (id, r) ∷ [])
          ∙ ap (λ x. x >>= (λ more. charge turns j q >>= (λ c. ok (c + more)))) found
          ∙ ap (λ x. x >>= (λ c. ok (c + more))) charged,
      omega (arith, ok-injective sum),
    )
