-- ===== src/Server/Proof/Prefix.antt =====
-- The loop that draws the server's prefix until it differs from the client's.
use necroauth.Prelude.{
  ℕ, ◌≡◌, ◌≢◌, ◌⊎◌, inl, inr, List, [], ◌∷◌, true, ok, arith, ◌==◌, Bool-cases, refl, ◌↔◌,
}
use necroauth.Aes.{Iv}
use necroauth.Server.Session.{avoid_prefix, bytes_eq}

-- Some drawn prefix is another one than the client's.
abbrev pub Offers : ℕ → List ℕ → Type 0
Offers client [] = ⊥
Offers client (p ∷ ps) = (p ≢ client) ⊎ Offers client ps

-- When the loop ends the prefixes differ; the counter is as it was.
pub avoid_prefix-differs :
    (client : ℕ) (iv : Iv) (ps : List ℕ) {iv' : Iv} {qs : List ℕ}
    → avoid_prefix client iv ps ≡ ok (iv', qs)
    → (iv'.prefix ≢ client) × (iv'.counter ≡ iv.counter)
unfolding avoid_prefix
avoid_prefix-differs client iv [] {iv'} {qs} e = ground arith
avoid_prefix-differs client iv (p ∷ ps) {iv'} {qs} e =
    ground (arith, avoid_prefix-differs client (record iv { prefix = p }) ps {iv' = iv'} {qs = qs})

-- The loop that draws a prefix ends if the present prefix or some drawn one is not the client's.
pub avoid_prefix_ends :
    (client : ℕ) (iv : Iv) (ps : List ℕ)
    → (iv.prefix ≢ client) ⊎ Offers client ps
    → (r : Iv × List ℕ) × (avoid_prefix client iv ps ≡ ok r)
unfolding avoid_prefix
avoid_prefix_ends client iv [] (inl d) = ((iv, []), ground arith)
avoid_prefix_ends client iv [] (inr o) = absurd o
avoid_prefix_ends client iv (p ∷ ps) h = elim (Bool-cases (client == iv.prefix)) [
  | inr other ↦ ((iv, p ∷ ps), rw other)
  | inl same ↦
      let (r, e) =
        avoid_prefix_ends client (record iv { prefix = p }) ps (later h (ground arith)) in
      (r, rw same e)
]
  where
    later :
        (iv.prefix ≢ client) ⊎ Offers client (p ∷ ps) → iv.prefix ≡ client → Offers client (p ∷ ps)
    later (inl d) e = absurd (d e)
    later (inr o) e = o

-- The comparison of passwords decides equality.
pub bytes_eq_iff : (xs ys : List ℕ) → (bytes_eq xs ys ≡ true) ↔ (xs ≡ ys)
unfolding bytes_eq
bytes_eq_iff [] [] = (λ _. refl, λ _. refl)
bytes_eq_iff [] (y ∷ ys) = (λ e. cc, λ e. cc)
bytes_eq_iff (x ∷ xs) [] = (λ e. cc, λ e. cc)
bytes_eq_iff (x ∷ xs) (y ∷ ys) = ground (arith, bytes_eq_iff xs ys)
