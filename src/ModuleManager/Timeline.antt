-- ===== src/ModuleManager/Timeline.antt =====
-- The actions of the module manager on a time line: who runs when, and the windows that each partition
-- gets. The rules put a time line together from its parts.
use mathlib.Core.List.{append_assoc}
use arinc653emulator.Prelude.{
  ℕ, ℤ, ◌≤ℤ◌, Bool, true, String, Option, none, some, List, [], ◌∷◌, ◌++◌, ◌≡◌, refl, ap, sym, ◌∙◌,
}
use arinc653emulator.Time.{TimeSpec, convert_time_spec_to_nano}
use arinc653emulator.ModuleManager.Defs.{
  Act, sleep_until, sigcont, sigstop, move_queue, move_sampling, send_token, echo, shut_down,
  joined, has_key, moves,
}

-- At a time, and with a partition that runs or none: the clock is never set back, a partition is continued
-- only if none runs, only the one that runs is stopped, and all else is done while none runs.
abbrev pub IsDisciplined : ℤ → Option ℕ → List Act → Type 0
IsDisciplined now running [] = running ≡ none
IsDisciplined now running (sleep_until t ∷ acts) =
    (now ≤ℤ convert_time_spec_to_nano t) × IsDisciplined (convert_time_spec_to_nano t) running acts
IsDisciplined now running (sigcont i ∷ acts) = (running ≡ none) × IsDisciplined now (some i) acts
IsDisciplined now running (sigstop i ∷ acts) = (running ≡ some i) × IsDisciplined now none acts
IsDisciplined now running (move_queue c ∷ acts) = (running ≡ none) × IsDisciplined now none acts
IsDisciplined now running (move_sampling c ∷ acts) = (running ≡ none) × IsDisciplined now none acts
IsDisciplined now running (send_token c ∷ acts) = (running ≡ none) × IsDisciplined now none acts
IsDisciplined now running (echo b ∷ acts) = (running ≡ none) × IsDisciplined now none acts
IsDisciplined now running (shut_down ∷ acts) = (running ≡ none) × IsDisciplined now none acts

-- A partition, and the nanoseconds at which it is continued and stopped
abbrev pub Window : Type 0
Window = ℕ × ℤ × ℤ

abbrev closed : Option (ℕ × ℤ) → ℤ → List Window
closed none now = []
closed (some (i, from)) now = (i, from, now) ∷ []

-- The windows that the actions give
unfoldable pub windows : ℤ → Option (ℕ × ℤ) → List Act → List Window
windows now running [] = []
windows now running (sleep_until t ∷ acts) = windows (convert_time_spec_to_nano t) running acts
windows now running (sigcont i ∷ acts) = windows now (some (i, now)) acts
windows now running (sigstop i ∷ acts) = closed running now ++ windows now none acts
windows now running (_ ∷ acts) = windows now running acts

-- Some actions that lead from one time to another, at both of which no partition runs, and give some
-- windows
pub record Leads (from : ℤ) (acts : List Act) (to : ℤ) (given : List Window) : Type 0 where
  pub disciplined :
      (rest : List Act) → IsDisciplined to none rest → IsDisciplined from none (acts ++ rest)
  pub gives : (rest : List Act) → windows from none (acts ++ rest) ≡ given ++ windows to none rest

pub Leads-append :
    (a b c : ℤ) (xs ys : List Act) (v w : List Window)
    → Leads a xs b v
    → Leads b ys c w
    → Leads a (xs ++ ys) c (v ++ w)
Leads-append a b c xs ys v w f g = record {
  disciplined = λ rest h. rw append_assoc (f.disciplined (ys ++ rest) (g.disciplined rest h));
  gives = λ rest. rw append_assoc (
      f.gives (ys ++ rest)
      ∙ ap (λ l. v ++ l) (g.gives rest)
      ∙ sym (append_assoc v w (windows c none rest)));
}

pub Leads-nil : (a : ℤ) → Leads a [] a []
Leads-nil a = record { disciplined = λ rest h. h; gives = λ rest. refl }

pub sleep-Leads :
    (a : ℤ) (t : TimeSpec)
    → a ≤ℤ convert_time_spec_to_nano t
    → Leads a (sleep_until t ∷ []) (convert_time_spec_to_nano t) []
unfolding windows
sleep-Leads a t h = record { disciplined = λ rest k. (h, k); gives = λ rest. refl }

-- The window of a partition
pub window-Leads :
    (a : ℤ) (i : ℕ) (t : TimeSpec)
    → a ≤ℤ convert_time_spec_to_nano t
    → Leads a
        (sigcont i ∷ sleep_until t ∷ sigstop i ∷ [])
        (convert_time_spec_to_nano t)
        ((i, a, convert_time_spec_to_nano t) ∷ [])
unfolding windows
window-Leads a i t h = record {
  disciplined = λ rest k. (refl, (h, (refl, k)));
  gives = λ rest. refl;
}

-- A list of actions, if there is one, that leads from one time to another
abbrev pub Plays : ℤ → Option (List Act) → ℤ → List Window → Type 0
Plays a o b given = (acts : List Act) × (o ≡ some acts) × Leads a acts b given

module _ (eq : String → String → Bool) where
  pub joined-Plays :
      (a b c : ℤ) (o p : Option (List Act)) (v w : List Window)
      → Plays a o b v
      → Plays b p c w
      → Plays a (joined o p) c (v ++ w)
  joined-Plays a b c o p v w (xs, ex, f) (ys, ey, g) =
      (xs ++ ys, rw (ex, ey) refl, Leads-append a b c xs ys v w f g)

  abbrev pub AllKeys : List String → List String → Type 0
  AllKeys keys [] = Unit {0}
  AllKeys keys (c ∷ cs) = (has_key eq c keys ≡ true) × AllKeys keys cs

  pub moves-Plays :
      (a : ℤ) (act : String → Act) (keys cs : List String)
      → ((c : String) → Leads a (act c ∷ []) a [])
      → AllKeys keys cs
      → Plays a (moves eq act keys cs) a []
  unfolding moves
  moves-Plays a act keys [] one h = ([], refl, Leads-nil a)
  moves-Plays a act keys (c ∷ cs) one (k, h) =
      let (acts, e, f) = moves-Plays a act keys cs one h in
      (act c ∷ acts, rw (k, e) refl, Leads-append a a a (act c ∷ []) acts [] [] (one c) f)

pub queue-Leads : (a : ℤ) (c : String) → Leads a (move_queue c ∷ []) a []
unfolding windows
queue-Leads a c = record { disciplined = λ rest h. (refl, h); gives = λ rest. refl }

pub sampling-Leads : (a : ℤ) (c : String) → Leads a (move_sampling c ∷ []) a []
unfolding windows
sampling-Leads a c = record { disciplined = λ rest h. (refl, h); gives = λ rest. refl }

pub token-Leads : (a : ℤ) (c : String) → Leads a (send_token c ∷ []) a []
unfolding windows
token-Leads a c = record { disciplined = λ rest h. (refl, h); gives = λ rest. refl }

pub echo-Leads : (a : ℤ) (b : Bool) → Leads a (echo b ∷ []) a []
unfolding windows
echo-Leads a b = record { disciplined = λ rest h. (refl, h); gives = λ rest. refl }

pub shut_down-Leads : (a : ℤ) → Leads a (shut_down ∷ []) a []
unfolding windows
shut_down-Leads a = record { disciplined = λ rest h. (refl, h); gives = λ rest. refl }
