-- ===== src/Manager/Steps.antt =====
-- Postconditions of the steps of `main`, in terms of what the manager has been given.
use ceilometer_operator.Prelude.{[], ℕ, ◌≡◌, refl, Option, none, some, List, ◌∷◌}
use ceilometer_operator.Go.{◌>>=◌, pure, exit, check_error}
use ceilometer_operator.Go.Ensures.{Ends, Ensures, Ensures-bind, Ensures-exit, Ensures-check_error}
use ceilometer_operator.Manager.{Defaults, Libraries, Process, Main, does, must, must_do}
use ceilometer_operator.Manager.Registry.{Part, Registry}

module _ (m : Libraries) (r : Registry m) where
  open r use {Has}

  -- The manager has been given all of these.
  pub data HasAll (w : m.World) : List Part → Type 0 where
    nothing : HasAll w []
    given : {p : Part} {ps : List Part} → Has p w → HasAll w ps → HasAll w (p ∷ ps)

  -- a code that says that something failed
  abbrev pub Failed : ℕ → Process m → Type 0
  Failed code s = code ≡ 1

  HasAll-keeps :
      (f : m.World → m.World) (w : m.World)
      → ((p : Part) (w : m.World) → Has p w → Has p (f w))
      → {ps : List Part} → HasAll w ps
      → HasAll (f w) ps
  HasAll-keeps f w k nothing = nothing
  HasAll-keeps f w k (given {p} h hs) = given (k p w h) (HasAll-keeps f w k hs)

  module _ (D : Defaults → Type 0) where
    abbrev pub At : List Part → Process m → Type 0
    At ps s = D s.defaults × HasAll s.world ps

    pub Ensures-does :
        {A : Type 0} (f : m.World → A × m.World) (ps : List Part)
        → ((p : Part) (w : m.World) → Has p w → Has p (f w).1)
        → Ensures (At ps) (does m f) (λ _. At ps) Failed
    unfolding does pure
    Ensures-does f ps k = record { at = λ s h. (h.0, HasAll-keeps (λ w. (f w).1) s.world k h.1) }

    -- a call that does not go on if it fails, and registers a part otherwise
    pub Ensures-registers :
        (f : m.World → Option m.Error × m.World) (handler : m.Error → Main m Unit) (q : Part)
        → (ps : List Part) → ((p : Part) (w : m.World) → Has p w → Has p (f w).1)
        → ((w : m.World) → (f w).0 ≡ none → Has q (f w).1)
        → ((e : m.Error) → Ensures (At ps) (handler e) (λ _. At (q ∷ ps)) Failed)
        → Ensures (At ps) (do error ← does m f; check_error error handler) (λ _. At (q ∷ ps)) Failed
    unfolding does pure check_error ◌>>=◌
    Ensures-registers f handler q ps k g ends = record {
      at = λ s h. answered s (f s.world).0 refl (h.0, HasAll-keeps (λ w. (f w).1) s.world k h.1);
    }
      where
        answered :
            (s : Process m) (o : Option m.Error)
            → (f s.world).0 ≡ o
            → At ps (record s { world = (f s.world).1 })
            → let r = check_error o handler (record s { world = (f s.world).1 }) in
              Ends (λ _. At (q ∷ ps)) Failed r.0 r.1
        answered s none e h = (h.0, given (g s.world e) h.1)
        answered s (some x) e h = (ends x).at _ h

    -- a call that ends the process if it fails
    pub Ensures-must_do :
        (f : m.World → Option m.Error × m.World) (q : Part) (ps : List Part)
        → ((p : Part) (w : m.World) → Has p w → Has p (f w).1)
        → ((w : m.World) → (f w).0 ≡ none → Has q (f w).1)
        → Ensures (At ps) (must_do m f) (λ _. At (q ∷ ps)) Failed
    unfolding must_do must
    Ensures-must_do f q ps k g =
        Ensures-registers f (λ _. exit 1) q ps k g λ e. Ensures-exit _ λ s h. refl

    pub Ensures-must_keep :
        (f : m.World → Option m.Error × m.World) (ps : List Part)
        → ((p : Part) (w : m.World) → Has p w → Has p (f w).1)
        → Ensures (At ps) (must_do m f) (λ _. At ps) Failed
    unfolding must_do must
    Ensures-must_keep f ps k =
        Ensures-bind _ _ _ _ (Ensures-does f ps k)
          λ error. Ensures-check_error _ _ λ e _. Ensures-exit _ λ s h. refl
