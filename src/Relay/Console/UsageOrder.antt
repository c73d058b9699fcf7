-- ===== src/Relay/Console/UsageOrder.antt =====
-- The order of the usage table (`usage` of src/relay_server/console.rs).
use openuu_server.Prelude.{
  ℕ, ◌≤◌, ◌==◌, String, Bool, not, ◌&&◌, List, [], ◌∷◌, ◌≡◌, refl, ◌∙◌, arith, leb, map, keep,
  count, Bool-cases, inl, inr,
}
use openuu_server.Relay.Forwarding.{Usage}
use openuu_server.Relay.Console.{
  total_of, elapsed_of, insert_sorted, sort_by_total, line, usage_table,
}

abbrev Below : ℕ → List (String × Usage) → Type 0
Below n [] = Unit
Below n (u ∷ us) = (total_of u ≤ n) × Below n us

-- The totals never grow along the list.
abbrev Descending : List (String × Usage) → Type 0
Descending [] = Unit
Descending (u ∷ us) = Below (total_of u) us × Descending us

Below-mono : (m n : ℕ) (us : List (String × Usage)) → m ≤ n → Below m us → Below n us
Below-mono m n [] h b = tt
Below-mono m n (u ∷ us) h (t, b) = (omega arith, Below-mono m n us h b)

insert_sorted-Below :
    (n : ℕ) (u : String × Usage) (us : List (String × Usage))
    → total_of u ≤ n
    → Below n us
    → Below n (insert_sorted u us)
unfolding insert_sorted
insert_sorted-Below n u [] h b = (h, tt)
insert_sorted-Below n u (v ∷ vs) h (t, b) = elim (Bool-cases (leb (total_of v) (total_of u))) [
  | inl le ↦ rw le (h, (t, b))
  | inr gt ↦ rw gt (t, insert_sorted-Below n u vs h b)
]

insert_sorted-Descending :
    (u : String × Usage) (us : List (String × Usage))
    → Descending us
    → Descending (insert_sorted u us)
unfolding insert_sorted
insert_sorted-Descending u [] d = (tt, tt)
insert_sorted-Descending u (v ∷ vs) (b, d) = elim (Bool-cases (leb (total_of v) (total_of u))) [
  | inl le ↦
      rw le ((ground arith, Below-mono (total_of v) (total_of u) vs (ground arith) b), (b, d))
  | inr gt ↦
      rw gt
        (insert_sorted-Below (total_of v) u vs (ground arith) b, insert_sorted-Descending u vs d)
]

sort_by_total-Descending : (us : List (String × Usage)) → Descending (sort_by_total us)
unfolding sort_by_total
sort_by_total-Descending [] = tt
sort_by_total-Descending (u ∷ us) =
    insert_sorted-Descending u (sort_by_total us) (sort_by_total-Descending us)

module _ (p : String × Usage → Bool) where
  count-insert_sorted :
      (u : String × Usage) (us : List (String × Usage))
      → count p (insert_sorted u us) ≡ count p (u ∷ us)
  unfolding insert_sorted count
  count-insert_sorted u [] = refl
  count-insert_sorted u (v ∷ vs) = ground (arith, count-insert_sorted u vs)

  count-sort_by_total : (us : List (String × Usage)) → count p (sort_by_total us) ≡ count p us
  unfolding sort_by_total count
  count-sort_by_total [] = refl
  count-sort_by_total (u ∷ us) =
      ground (arith, count-insert_sorted u (sort_by_total us), count-sort_by_total us)

  keep-Below : (n : ℕ) (us : List (String × Usage)) → Below n us → Below n (keep p us)
  unfolding keep
  keep-Below n [] b = tt
  keep-Below n (u ∷ us) (t, b) = elim (Bool-cases (p u)) [
    | inl yes_p ↦ rw yes_p (t, keep-Below n us b)
    | inr no_p ↦ rw no_p (keep-Below n us b)
  ]

  keep-Descending : (us : List (String × Usage)) → Descending us → Descending (keep p us)
  unfolding keep
  keep-Descending [] d = tt
  keep-Descending (u ∷ us) (b, d) = elim (Bool-cases (p u)) [
    | inl yes_p ↦ rw yes_p (keep-Below (total_of u) us b, keep-Descending us d)
    | inr no_p ↦ rw no_p (keep-Descending us d)
  ]

count-keep :
    (p q : String × Usage → Bool) (us : List (String × Usage))
    → count p (keep q us) ≡ count (λ u. q u && p u) us
unfolding keep count
count-keep p q [] = refl
count-keep p q (u ∷ us) = ground (arith, count-keep p q us)

-- The usage table lists the connections whose first second is over, each as often as USAGE has it,
-- with totals that never grow.
usage_table-Descending :
    (us : List (String × Usage))
    → (shown : List (String × Usage)) × (usage_table us ≡ map line shown)
      × Descending shown
      × ((p : String × Usage → Bool)
          → count p shown ≡ count (λ u. not (elapsed_of u == 0) && p u) us)
unfolding usage_table
usage_table-Descending us =
    let live = λ (u : String × Usage). not (elapsed_of u == 0) in
    (
      keep live (sort_by_total us),
      refl,
      keep-Descending live (sort_by_total us) (sort_by_total-Descending us),
      λ p. count-keep p live (sort_by_total us) ∙ count-sort_by_total (λ u. live u && p u) us,
    )
