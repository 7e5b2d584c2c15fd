-- ===== src/CoroTask/Transfers.antt =====
-- include/ate/coro_task.hpp: who owns which frame when one is allocated, moved or destroyed.
use async_task_engine.Common.{
  ℕ, suc, ◌<◌, ◌≡◌, refl, sym, ap, ◌∙◌, ◌⊎◌, inl, inr, Bool, true, false, Option, none, some,
  update, update-at, update-other, update-some, ℕ_discrete, arith,
}
use mathlib.Core.Option.{some-injective, none-ne-some}
use mathlib.Core.Bool.{true≢false}

-- A variable with a handle owns a frame that is alive, no two own the same one, and a frame that is
-- alive has an owner.
pub record Owned (handles : ℕ → Option ℕ) (alive : ℕ → Bool) (next : ℕ) : Type 0 where
  pub live : (x h : ℕ) → handles x ≡ some h → alive h ≡ true
  pub unique : (x y h : ℕ) → handles x ≡ some h → handles y ≡ some h → x ≡ y
  pub owner : (h : ℕ) → alive h ≡ true → (x : ℕ) × (handles x ≡ some h)
  pub bounded : (h : ℕ) → alive h ≡ true → h < next

different : (H : ℕ → Option ℕ) (x z h : ℕ) → H x ≡ none → H z ≡ some h → x ≡ z → ⊥
different H x z h e f same = none-ne-some h (sym e ∙ ap H same ∙ f)

still :
    (alive : ℕ → Bool) (h₀ h : ℕ) → update alive h₀ false h ≡ true → (h₀ ≡ h → ⊥) × (alive h ≡ true)
still alive h₀ h a = elim (ℕ_discrete h₀ h) [
  | yes here ↦ elim (true≢false (sym a ∙ update-at alive h₀ false h here)) [ ]
  | no other ↦ (other, sym (update-other alive h₀ false h other) ∙ a)
]

-- The owners of the frames are those of `H`, wherever they went.
pub record Follows (H H' : ℕ → Option ℕ) (from : ℕ → ℕ) : Type 0 where
  back : (z h : ℕ) → H' z ≡ some h → H (from z) ≡ some h
  apart : (z z' h h' : ℕ) → H' z ≡ some h → H' z' ≡ some h' → from z ≡ from z' → z ≡ z'
  forth : (z h : ℕ) → H z ≡ some h → (z' : ℕ) × (H' z' ≡ some h)

pub Follows-Owned :
    (H H' : ℕ → Option ℕ) (from : ℕ → ℕ) (alive : ℕ → Bool) (next : ℕ)
    → Follows H H' from
    → Owned H alive next
    → Owned H' alive next
Follows-Owned H H' from alive next f v = record {
  live = λ x h e. v.live (from x) h (f.back x h e);
  unique =
      λ x y h e g. f.apart x y h h e g (v.unique (from x) (from y) h (f.back x h e) (f.back y h g));
  owner = λ h a. let (x, e) = v.owner h a in f.forth x h e;
  bounded = v.bounded;
}

-- The handle of `y` goes to `x`, which has none.
module _ (H : ℕ → Option ℕ) (x y : ℕ) (empty_x : H x ≡ none) where
  abbrev pub transfer : ℕ → Option ℕ
  transfer = update (update H y none) x (H y)

  abbrev pub from : ℕ → ℕ
  from = update (λ z. z) x y

  source :
      (z h : ℕ)
      → transfer z ≡ some h
      → ((x ≡ z) × (H y ≡ some h)) ⊎ ((x ≡ z → ⊥) × (y ≡ z → ⊥) × (H z ≡ some h))
  source z h e = elim (update-some (update H y none) x (H y) z h e) [
    | inl here ↦ inl here
    | inr (other, f) ↦ elim (update-some H y none z h f) [
      | inl (same, g) ↦ elim (none-ne-some h g) [ ]
      | inr (apart, g) ↦ inr (other, apart, g)
    ]
  ]

  from-moved : (z : ℕ) → x ≡ z → from z ≡ y
  from-moved z here = update-at (λ z. z) x y z here

  from-other : (z : ℕ) → (x ≡ z → ⊥) → from z ≡ z
  from-other z other = update-other (λ z. z) x y z other

  pub transfer-Follows : Follows H transfer from
  transfer-Follows = record {
    back = λ z h e. elim (source z h e) [
      | inl (here, f) ↦ ap H (from-moved z here) ∙ f
      | inr (other, apart, f) ↦ ap H (from-other z other) ∙ f
    ];
    apart = λ z z' h h' e e' same. elim (source z h e) [
      | inl (here, f) ↦ elim (source z' h' e') [
        | inl (here', f') ↦ sym here ∙ here'
        | inr (other', apart', f') ↦
            elim (apart' (sym (from-moved z here) ∙ same ∙ from-other z' other')) [ ]
      ]
      | inr (other, apart, f) ↦ elim (source z' h' e') [
        | inl (here', f') ↦
            elim (apart (sym (from-moved z' here') ∙ sym same ∙ from-other z other)) [ ]
        | inr (other', apart', f') ↦ sym (from-other z other) ∙ same ∙ from-other z' other'
      ]
    ];
    forth = λ z h e. elim (ℕ_discrete y z) [
      | yes here ↦ (x, update-at (update H y none) x (H y) x refl ∙ ap H here ∙ e)
      | no other ↦ (
        z,
        update-other (update H y none) x (H y) z (different H x z h empty_x e)
            ∙ update-other H y none z other
            ∙ e,
      )
    ];
  }

pub same-Owned :
    (H H' : ℕ → Option ℕ) (alive : ℕ → Bool) (next : ℕ)
    → ((z : ℕ) → H' z ≡ H z)
    → Owned H alive next
    → Owned H' alive next
same-Owned H H' alive next same v = record {
  live = λ x h e. v.live x h (sym (same x) ∙ e);
  unique = λ x y h e f. v.unique x y h (sym (same x) ∙ e) (sym (same y) ∙ f);
  owner = λ h a. let (x, e) = v.owner h a in (x, same x ∙ e);
  bounded = v.bounded;
}

module _ (H : ℕ → Option ℕ) (alive : ℕ → Bool) (next : ℕ) (v : Owned H alive next) where
  pub new-Owned :
      (x : ℕ) → H x ≡ none → Owned (update H x (some next)) (update alive next true) (suc next)
  new-Owned x e =
      let young : (z h : ℕ) → H z ≡ some h → next ≡ h → ⊥ =
        λ z h f same. omega (arith, v.bounded h (v.live z h f)) in
      record {
        live = λ z h f. elim (update-some H x (some next) z h f) [
          | inl (here, g) ↦ update-at alive next true h (some-injective _ _ g)
          | inr (other, g) ↦ update-other alive next true h (young z h g) ∙ v.live z h g
        ];
        unique = λ z z' h f f'. elim (update-some H x (some next) z h f) [
          | inl (here, g) ↦ elim (update-some H x (some next) z' h f') [
            | inl (here', g') ↦ sym here ∙ here'
            | inr (other', g') ↦ elim (young z' h g' (some-injective _ _ g)) [ ]
          ]
          | inr (other, g) ↦ elim (update-some H x (some next) z' h f') [
            | inl (here', g') ↦ elim (young z h g (some-injective _ _ g')) [ ]
            | inr (other', g') ↦ v.unique z z' h g g'
          ]
        ];
        owner = λ h a. elim (ℕ_discrete next h) [
          | yes here ↦ (x, update-at H x (some next) x refl ∙ ap some here)
          | no other ↦
              let (z, f) = v.owner h (sym (update-other alive next true h other) ∙ a) in
              (z, update-other H x (some next) z (different H x z h e f) ∙ f)
        ];
        bounded = λ h a. elim (ℕ_discrete next h) [
          | yes here ↦ omega (arith, here)
          | no other ↦ omega (arith, v.bounded h (sym (update-other alive next true h other) ∙ a))
        ];
      }

  pub drop-Owned : (x h₀ : ℕ) → H x ≡ some h₀ → Owned (update H x none) (update alive h₀ false) next
  drop-Owned x h₀ e =
      let old : (h : ℕ) → update alive h₀ false h ≡ true → (h₀ ≡ h → ⊥) × (alive h ≡ true) =
        still alive h₀ in
      let left : (z h : ℕ) → update H x none z ≡ some h → (x ≡ z → ⊥) × (H z ≡ some h) = λ z h f.
        elim (update-some H x none z h f) [
          | inl (here, g) ↦ elim (none-ne-some h g) [ ]
          | inr rest ↦ rest
        ] in
      record {
        live = λ z h f.
            let (other, g) = left z h f in
            update-other alive h₀ false h (λ same. other (v.unique x z h (e ∙ ap some same) g))
            ∙ v.live z h g;
        unique = λ z z' h f f'. v.unique z z' h (left z h f).1 (left z' h f').1;
        owner = λ h a.
            let (other, b) = old h a in
            let (z, f) = v.owner h b in
            (
              z,
              update-other H x none z (λ same. other (some-injective _ _ (sym e ∙ ap H same ∙ f)))
                  ∙ f,
            );
        bounded = λ h a. v.bounded h (old h a).1;
      }
