-- ===== src/Vec/Grow/Lists.antt =====
-- atomic/vec.rs: lists of different blocks.
use crossync.Prelude.{ℕ, ◌≢◌, sym, List, [], ◌∷◌, ◌++◌, All}
use crossync.Vec.Rep.{Distinct}

-- An element in the middle of a list of different ones.
pub Distinct-middle :
    (ps qs : List ℕ) (p : ℕ)
    → Distinct (ps ++ p ∷ qs)
    → Distinct (ps ++ qs) × All (λ q. p ≢ q) (ps ++ qs)
Distinct-middle [] qs p d = (d.1, d.0)
Distinct-middle (r ∷ ps) qs p d =
    let (rest, apart) = Distinct-middle ps qs p d.1 in
    let (ne, keep) = All-middle ps qs p d.0 in ((keep, rest), (λ e. ne (sym e), apart))
  where
    All-middle :
        (ps qs : List ℕ) (p : ℕ) {r : ℕ}
        → All (λ q. r ≢ q) (ps ++ p ∷ qs)
        → (r ≢ p) × All (λ q. r ≢ q) (ps ++ qs)
    All-middle [] qs p a = a
    All-middle (s ∷ ps) qs p a = let (ne, rest) = All-middle ps qs p a.1 in (ne, (a.0, rest))

pub All-drop {κ} :
    (K : ℕ → Type κ) (ps qs : List ℕ) (p : ℕ) → All K (ps ++ p ∷ qs) → K p × All K (ps ++ qs)
All-drop K [] qs p a = a
All-drop K (r ∷ ps) qs p a = let (k, rest) = All-drop K ps qs p a.1 in (k, (a.0, rest))

pub All-left {κ} : (K : ℕ → Type κ) (ps qs : List ℕ) → All K (ps ++ qs) → All K ps
All-left K [] qs a = tt
All-left K (p ∷ ps) qs a = (a.0, All-left K ps qs a.1)

pub All-right {κ} : (K : ℕ → Type κ) (ps qs : List ℕ) → All K (ps ++ qs) → All K qs
All-right K [] qs a = a
All-right K (p ∷ ps) qs a = All-right K ps qs a.1
