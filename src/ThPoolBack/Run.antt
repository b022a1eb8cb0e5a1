-- ===== src/ThPoolBack/Run.antt =====
-- Any course of the pool of thread/ThPoolBack.cpp: steps of its threads and of the main thread.
use domino_library.Prelude.{
  ◌>>=◌, ℕ, ◌≡◌, Bool, true, false, List, [], ◌∷◌, ◌++◌, Option, none, some,
}
use domino_library.ThreadBack.{FutBackFn}
use domino_library.ThPoolBack.{
  Shared, outside, to_notify, to_notify_all, joining, ThPoolBack, mt_step,
}
use domino_library.ThPoolBack.Calls.{
  new_task_ok, limit_new_task_ok, notify_one, spurious_wake, store_stop, notify_all,
  pool_hdl_done_fut, join_all,
}

-- The task of a call that is accepted
unfoldable pub accepted {ℓ κ} :
    {E : Type ℓ} {B : Type κ} → Option E → Option B → Bool → List (E × B)
accepted (some entry) (some fn) true = (entry, fn) ∷ []
accepted (some entry) (some fn) false = []
accepted (some entry) none ok = []
accepted none back_fn ok = []

module _ {ℓ κ υ} {E : Type ℓ} {B : Type κ} {R : Type υ} (run : E → Option R) where
  -- A step, with the tasks accepted and the tasks handled in it
  pub data Step (p : ThPoolBack E B R)
      : List (E × B) → List (FutBackFn (Shared B) R) → ThPoolBack E B R → Type (ℓ ⊔ κ ⊔ υ) where
    thread_step : {p' : ThPoolBack E B R} (i : ℕ) → mt_step run p i ≡ some p' → Step p [] [] p'
    wakes : {p' : ThPoolBack E B R} (i : ℕ) → spurious_wake p i ≡ some p' → Step p [] [] p'
    new_task :
        {p' : ThPoolBack E B R} (main : Bool) (entry : Option E) (back_fn : Option B) (ok : Bool)
        → p.stage ≡ outside
        → new_task_ok p main entry back_fn ≡ some (p', ok)
        → Step p (accepted entry back_fn ok) [] p'
    limited :
        {p' : ThPoolBack E B R} (main : Bool) (entry : Option E) (back_fn : Option B) (ok : Bool)
        → p.stage ≡ outside
        → limit_new_task_ok p main entry back_fn ≡ some (p', ok)
        → Step p (accepted entry back_fn ok) [] p'
    notifies :
        {p' : ThPoolBack E B R} (i : ℕ)
        → p.stage ≡ to_notify
        → notify_one p i ≡ some p'
        → Step p [] [] p'
    handles :
        {p' : ThPoolBack E B R} {handled : List (FutBackFn (Shared B) R)} (main : Bool)
        → p.stage ≡ outside
        → pool_hdl_done_fut p main ≡ (p', handled)
        → Step p [] handled p'
    stops : p.stage ≡ outside → Step p [] [] (store_stop p)
    notifies_all : p.stage ≡ to_notify_all → Step p [] [] (notify_all p)
    joins :
        {p' : ThPoolBack E B R} {handled : List (FutBackFn (Shared B) R)}
        → p.stage ≡ joining
        → join_all p ≡ some (p', handled)
        → Step p [] handled p'

  pub data Steps (p : ThPoolBack E B R)
      : List (E × B) → List (FutBackFn (Shared B) R) → ThPoolBack E B R → Type (ℓ ⊔ κ ⊔ υ) where
    here : Steps p [] [] p
    next :
        {q r : ThPoolBack E B R} {new new' : List (E × B)}
        {handled handled' : List (FutBackFn (Shared B) R)}
        → Steps p new handled q
        → Step q new' handled' r
        → Steps p (new ++ new') (handled ++ handled') r

  -- Steps of pool threads only, thread by thread
  unfoldable pub mt_steps : ThPoolBack E B R → List ℕ → Option (ThPoolBack E B R)
  unfolding mt_step
  mt_steps p [] = some p
  mt_steps p (i ∷ is) = mt_step run p i >>= λ p'. mt_steps p' is

  -- No pool thread can take a step.
  abbrev pub IsResting : ThPoolBack E B R → Type (ℓ ⊔ κ ⊔ υ)
  IsResting p = (i : ℕ) → mt_step run p i ≡ none
