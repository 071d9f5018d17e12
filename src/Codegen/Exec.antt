-- ===== src/Codegen/Exec.antt =====
-- Lines of the C text that p1/main.c prints, run one after the other.
use operating_systems_cs.Common.{
  ℕ, Option, none, some, ◌>>=◌, List, [], ◌∷◌, ◌++◌, ◌≡◌, ◌≢◌, refl, ap, ne→==, ◌∙◌, arith,
}
use operating_systems_cs.Codegen.{Double, Declaration, Scope, initial, declare, exec}

-- A chain whose step ends in the steps of `g`.
bind_join {ℓ} :
    {A B C : Type ℓ} (o : Option A) (f : A → Option B) (g : B → Option C) (h : A → Option C)
    → ((a : A) → h a ≡ (f a >>= g))
    → (o >>= h) ≡ (o >>= f >>= g)
bind_join none f g h e = refl
bind_join (some a) f g h e = e a

module _ {D : Type 0} (double : Double D) where
  pub exec-append :
      (a b : List (Declaration D)) (s : Scope D)
      → exec double (a ++ b) s ≡ (exec double a s >>= exec double b)
  unfolding exec
  exec-append [] b s = refl
  exec-append (d ∷ ds) b s =
      bind_join (initial double d.value s) _ (exec double b) _
        (λ x. bind_join (declare double s d.id x) _ (exec double b) _ (exec-append ds b))

  pub declare_fresh :
      (s : Scope D) (id : ℕ) (x : D)
      → s id ≡ none
      → (t : Scope D) × (declare double s id x ≡ some t)
        × (t id ≡ some x)
        × ((j : ℕ) → j ≢ id → t j ≡ s j)
  unfolding declare
  declare_fresh s id x e = rw (e, declare) (_, refl, ground arith, λ j ne. rw (ne→== j id ne) refl)

  pub exec_behind :
      (a b : List (Declaration D)) (s t : Scope D)
      → exec double a s ≡ some t
      → exec double (a ++ b) s ≡ exec double b t
  exec_behind a b s t e = exec-append a b s ∙ ap (λ o. o >>= exec double b) e

  pub exec_one :
      (d : Declaration D) (s t : Scope D) (x : D)
      → initial double d.value s ≡ some x
      → declare double s d.id x ≡ some t
      → exec double (d ∷ []) s ≡ some t
  unfolding exec
  exec_one d s t x e f = rw (e, f) refl
