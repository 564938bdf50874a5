-- ===== src/Chain.antt =====
-- Singly linked lists: the addresses that the `next` pointers lead through.
use kalinote_os.Base.{ℕ, ◌≡◌, List, [], ◌∷◌, arith, update, ◌∉◌}

-- From `p` the pointers lead through `xs` to `stop`.
abbrev pub Chain : (ℕ → ℕ) → ℕ → List ℕ → ℕ → Type 0
Chain next p [] stop = p ≡ stop
Chain next p (x ∷ xs) stop = (p ≡ x) × Chain next (next x) xs stop

-- A write outside the chain keeps it.
pub Chain-update :
    (next : ℕ → ℕ) (a v p : ℕ) (xs : List ℕ) (stop : ℕ)
    → a ∉ xs
    → Chain next p xs stop
    → Chain (update next a v) p xs stop
Chain-update next a v p [] stop out c = c
Chain-update next a v p (x ∷ xs) stop out c =
    let out_tail : a ∉ xs = ground arith in
    let ne : update next a v x ≡ next x = ground arith in
    (c.0, rw ne (Chain-update next a v (next x) xs stop out_tail c.1))
