-- ===== src/System/Run.antt =====
-- What holds when a part of a function has returned: total correctness for the monad of the thread.
use nadrvlinux.Prelude.{Option, none, some, Bool, true, false, if◌then◌else◌, ◌≡◌, refl}
use nadrvlinux.System.{System, M, ◌>>=◌}

abbrev pub Returned : {A : Type 0} → (A → System → Type 0) → Option (A × System) → Type 0
Returned P none = ⊥
Returned P (some (a, s)) = P a s

-- `m` returns when it runs in `s`, and `P` holds of what it returns and of the state it leaves.
unfoldable pub Run : {A : Type 0} → M A → System → (A → System → Type 0) → Type 0
Run m s P = Returned P (m s)

module _ {A B : Type 0} where
  bind-Returned :
      (o : Option (A × System)) (k : A → M B) (P : A → System → Type 0) (Q : B → System → Type 0)
      → Returned P o
      → ((a : A) (s : System) → P a s → Returned Q (k a s))
      → Returned Q (elim o [ none ↦ none | some (a, s') ↦ k a s' ])
  bind-Returned none k P Q h f = h
  bind-Returned (some (a, s)) k P Q h f = f a s h

  pub Run->>= :
      (m : M A) (k : A → M B) (s : System) (P : A → System → Type 0) (Q : B → System → Type 0)
      → Run m s P
      → ((a : A) (s' : System) → P a s' → Run (k a) s' Q)
      → Run (m >>= k) s Q
  unfolding Run
  Run->>= m k s P Q h f = bind-Returned (m s) k P Q h f

module _ {A : Type 0} where
  pub Run-weaken :
      (m : M A) (s : System) (P Q : A → System → Type 0)
      → Run m s P
      → ((a : A) (s' : System) → P a s' → Q a s')
      → Run m s Q
  unfolding Run
  Run-weaken m s P Q h f = weaken (m s) h
    where
      weaken : (o : Option (A × System)) → Returned P o → Returned Q o
      weaken none h = h
      weaken (some (a, s')) h = f a s' h

  pub Run-if :
      (b : Bool) (m n : M A) (s : System) (P : A → System → Type 0)
      → (b ≡ true → Run m s P)
      → (b ≡ false → Run n s P)
      → Run (if b then m else n) s P
  Run-if true m n s P f g = f refl
  Run-if false m n s P f g = g refl

  -- A run that returns returns something.
  pub Run-some :
      (m : M A) (s : System) (P : A → System → Type 0)
      → Run m s P
      → (a : A) × (s' : System) × (m s ≡ some (a, s')) × P a s'
  unfolding Run
  Run-some m s P h = found (m s) h
    where
      found :
          (o : Option (A × System))
          → Returned P o
          → (a : A) × (s' : System) × (o ≡ some (a, s')) × P a s'
      found none h = absurd h
      found (some (a, s')) h = (a, s', refl, h)
