-- ===== src/Broker/Keeps.antt =====
-- bin/control_broker.py: what holds of the commands run and of `out` after a step that
-- returns, and after one that raises.
use hermes_agent_workforce_p.Prelude.{◌≡◌, refl, List}
use hermes_agent_workforce_p.Broker.{Answer, value, raised, Exception}
use hermes_agent_workforce_p.Broker.Machine.{Run, M, ◌>>=◌, continue, lift, set_out, Command, Out}

-- What a step keeps when it returns, and what it owes to the exception when it raises.
abbrev pub Kept : Type 1
Kept = List Command → Out → Type 0

abbrev pub Owed : Type 1
Owed = Exception → List Command → Out → Type 0

abbrev pub Pays : Kept → Owed → Exception → Type 0
Pays P R e = (cs : List Command) (o : Out) → P cs o → R e cs o

module _ {E : Type 0} (P Q : Kept) (R : Owed) where
  unfoldable pub Holds : {A : Type 0} → Answer A × Run E → Type 0
  Holds (value a, s) = Q s.commands s.out
  Holds (raised e, s) = R e s.commands s.out

  -- From `P`, the step ends in `Q` or raises with `R`.
  unfoldable pub Meets : {A : Type 0} → M E A → Type 0
  unfolding Holds
  Meets m = (s : Run E) → P s.commands s.out → Holds (m s)

module _ {E : Type 0} (P Q S : Kept) (R : Owed) where
  continue-Holds :
      {A B : Type 0} (r : Answer A × Run E) (f : A → M E B)
      → Holds P Q R r
      → ((a : A) (s : Run E) → r ≡ (value a, s) → Meets Q S R (f a))
      → Holds P S R (continue r f)
  unfolding Holds Meets
  continue-Holds (value a, s) f h k = k a s refl s h
  continue-Holds (raised e, s) f h k = h

  -- The steps that follow a value may use that it came from the first.
  pub Meets-known :
      {A B : Type 0} (m : M E A) (f : A → M E B)
      → Meets P Q R m
      → ((a : A) (s s' : Run E) → m s ≡ (value a, s') → Meets Q S R (f a))
      → Meets P S R (m >>= f)
  unfolding Meets Holds
  Meets-known m f h k s p = continue-Holds (m s) f (h s p) (λ a s' e. k a s s' e)

  pub Meets->>= :
      {A B : Type 0} (m : M E A) (f : A → M E B)
      → Meets P Q R m
      → ((a : A) → Meets Q S R (f a))
      → Meets P S R (m >>= f)
  Meets->>= m f h k = Meets-known m f h (λ a s s' e. k a)

module _ {E : Type 0} (P Q S : Kept) (R : Owed) where
  weaken-Holds :
      {A : Type 0} (r : Answer A × Run E)
      → ((cs : List Command) (o : Out) → Q cs o → S cs o)
      → Holds P Q R r
      → Holds P S R r
  unfolding Holds
  weaken-Holds (value a, s) w h = w s.commands s.out h
  weaken-Holds (raised e, s) w h = h

  from-Holds : {A : Type 0} (r : Answer A × Run E) → Holds Q S R r → Holds P S R r
  unfolding Holds
  from-Holds (value a, t) q = q
  from-Holds (raised e, t) q = q

  -- A step may start from more than it asks for.
  pub Meets-from :
      {A : Type 0} (m : M E A)
      → ((cs : List Command) (o : Out) → P cs o → Q cs o)
      → Meets Q S R m
      → Meets P S R m
  unfolding Meets Holds
  Meets-from m w h s p = from-Holds (m s) (h s (w s.commands s.out p))

  pub Meets-weaken :
      {A : Type 0} (m : M E A)
      → ((cs : List Command) (o : Out) → Q cs o → S cs o)
      → Meets P Q R m
      → Meets P S R m
  unfolding Meets
  Meets-weaken m w h s p = weaken-Holds (m s) w (h s p)

module _ (E : Type 0) (P : Kept) (R : Owed) where
  pub Meets-value : {A : Type 0} (a : A) → Meets P P R (lift {E = E} (value a))
  unfolding Meets Holds
  Meets-value a s p = p

  pub Meets-lift :
      {A : Type 0} (a : Answer A)
      → ((e : Exception) → a ≡ raised e → Pays P R e)
      → Meets P P R (lift {E = E} a)
  unfolding Meets Holds
  Meets-lift (value x) d s p = p
  Meets-lift (raised e) d s p = d e refl s.commands s.out p

  pub Meets-raise :
      (A : Type 0) (Q : Kept) (e : Exception)
      → Pays P R e
      → Meets P Q R {A = A} (lift {E = E} (raised e))
  unfolding Meets Holds
  Meets-raise A Q e d s p = d s.commands s.out p

  -- What follows a check may use that it passed.
  pub Meets-after :
      {A B : Type 0} (Q : Kept) (a : Answer A) (f : A → M E B)
      → ((e : Exception) → a ≡ raised e → Pays P R e)
      → ((x : A) → a ≡ value x → Meets P Q R (f x))
      → Meets P Q R (lift a >>= f)
  unfolding Meets Holds
  Meets-after Q (value x) f d k s p = k x refl s p
  Meets-after Q (raised e) f d k s p = d e refl s.commands s.out p

  pub Meets-set :
      (Q : Kept) (f : Out → Out)
      → ((cs : List Command) (o : Out) → P cs o → Q cs (f o))
      → Meets P Q R (set_out {E = E} f)
  unfolding Meets Holds set_out
  Meets-set Q f h s p = h s.commands s.out p
