-- ===== src/Graph500/Csr/Links.antt =====
-- The neighbours that the loops of trident-workloads/graph500/seq-csr/seq-csr.c collect, against the edges.
use mathlib.Core.Option.{some-injective, none-ne-some}
use trident_micro21_artifact.Graph500.Csr.{Edge}
use trident_micro21_artifact.Graph500.Csr.Scatter.{from_pair, from_edge, neighbours}
use mathlib.Core.List.{Memᴰ}
use mathlib.Core.List.Memᴰ
use trident_micro21_artifact.Base.{
  ℕ, ◌≡◌, refl, sym, ap, ap₂, ◌∙◌, ◌≢◌, ◌↔◌, ◌⊎◌, inl, inr, none, some, List, [], ◌∷◌, eq-cases,
  ==-refl, ==-ne,
}

-- An edge between two different vertices, in either direction.
abbrev pub Linked : List Edge → ℕ → ℕ → Type 0
Linked edges v w = (v ≢ w) × (Memᴰ (some v, some w) edges ⊎ Memᴰ (some w, some v) edges)

abbrev LinkedBy : Edge → ℕ → ℕ → Type 0
LinkedBy e v w = (v ≢ w) × (((some v, some w) ≡ e) ⊎ ((some w, some v) ≡ e))

from_pair-cases :
    (v i j w : ℕ) → Memᴰ w (from_pair v i j) → ((v ≡ i) × (w ≡ j)) ⊎ ((v ≡ j) × (w ≡ i))
unfolding from_pair
from_pair-cases v i j w m = elim (eq-cases v i) [
  | inl e ↦ inl (e, Memᴰ.eq_of_singleton (rw (e, ==-refl i) at m))
  | inr e ↦ elim (eq-cases v j) [
    | inl f ↦ inr (f, Memᴰ.eq_of_singleton (rw (==-ne v i e, f, ==-refl j) at m))
    | inr f ↦ absurd (Memᴰ.not-nil (rw (==-ne v i e, ==-ne v j f) at m))
  ]
]

to_pair-left : (i j : ℕ) → Memᴰ j (from_pair i i j)
unfolding from_pair
to_pair-left i j = rw (==-refl i) (Memᴰ.head refl)

to_pair-right : (i j : ℕ) → i ≢ j → Memᴰ i (from_pair j i j)
unfolding from_pair
to_pair-right i j h = rw (==-ne j i (λ e. h (sym e)), ==-refl j) (Memᴰ.head refl)

from_edge-LinkedBy : (v : ℕ) (e : Edge) (w : ℕ) → Memᴰ w (from_edge v e) ↔ LinkedBy e v w
unfolding from_edge
from_edge-LinkedBy v (none, j) w = (
  λ m. absurd (Memᴰ.not-nil m),
  λ (ne, l). elim l [
    | inl e ↦ absurd (none-ne-some v (sym (ap (λ p. p.0) e)))
    | inr e ↦ absurd (none-ne-some w (sym (ap (λ p. p.0) e)))
  ],
)
from_edge-LinkedBy v (some i, none) w = (
  λ m. absurd (Memᴰ.not-nil m),
  λ (ne, l). elim l [
    | inl e ↦ absurd (none-ne-some w (sym (ap (λ p. p.1) e)))
    | inr e ↦ absurd (none-ne-some v (sym (ap (λ p. p.1) e)))
  ],
)
from_edge-LinkedBy v (some i, some j) w = (
  λ m. elim (eq-cases i j) [
    | inl e ↦ absurd (Memᴰ.not-nil (rw (e, ==-refl j) at m))
    | inr ne ↦ elim (from_pair-cases v i j w (rw (==-ne i j ne) at m)) [
      | inl (e, f) ↦ (λ s. ne (sym e ∙ s ∙ f), inl (ap₂ (λ a b. (some a, some b)) e f))
      | inr (e, f) ↦ (λ s. ne (sym f ∙ sym s ∙ e), inr (ap₂ (λ a b. (some a, some b)) f e))
    ]
  ],
  λ (ne, l). elim l [
    | inl e ↦
        let a = some-injective v i (ap (λ p. p.0) e) in
        let b = some-injective w j (ap (λ p. p.1) e) in
        rw (sym a, sym b, ==-ne v w ne) (to_pair-left v w)
    | inr e ↦
        let a = some-injective w i (ap (λ p. p.0) e) in
        let b = some-injective v j (ap (λ p. p.1) e) in
        rw (sym a, sym b, ==-ne w v (λ s. ne (sym s))) (to_pair-right w v (λ s. ne (sym s)))
  ],
)

pub neighbours-Linked :
    (v : ℕ) (edges : List Edge) (w : ℕ) → Memᴰ w (neighbours v edges) ↔ Linked edges v w
unfolding neighbours
neighbours-Linked v [] w = (
  λ m. absurd (Memᴰ.not-nil m),
  λ (ne, l). elim l [ inl m ↦ absurd (Memᴰ.not-nil m) | inr m ↦ absurd (Memᴰ.not-nil m) ],
)
neighbours-Linked v (e ∷ edges) w =
    let (go, back) = neighbours-Linked v edges w in
    let (go_e, back_e) = from_edge-LinkedBy v e w in
    (
      λ m. elim (Memᴰ.append_cases (from_edge v e) m) [
        | inl m' ↦
            let (ne, l) = go_e m' in
            (ne, elim l [ inl s ↦ inl (Memᴰ.head s) | inr s ↦ inr (Memᴰ.head s) ])
        | inr m' ↦
            let (ne, l) = go m' in
            (ne, elim l [ inl s ↦ inl (Memᴰ.tail s) | inr s ↦ inr (Memᴰ.tail s) ])
      ],
      λ (ne, l). elim l [
        | inl m ↦ elim (Memᴰ.cases_cons m) [
          | inl s ↦ Memᴰ.append_left (neighbours v edges) (back_e (ne, inl s))
          | inr t ↦ Memᴰ.append_right (from_edge v e) (back (ne, inl t))
        ]
        | inr m ↦ elim (Memᴰ.cases_cons m) [
          | inl s ↦ Memᴰ.append_left (neighbours v edges) (back_e (ne, inr s))
          | inr t ↦ Memᴰ.append_right (from_edge v e) (back (ne, inr t))
        ]
      ],
    )
