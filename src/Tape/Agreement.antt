-- ===== src/Tape/Agreement.antt =====
-- What it is for the engine's views to agree with the tapes, and the calls that only read (packages/brewva-runtime/src/tape/replay-engine.ts).
use pi_roaster.Base.{
  ℕ, String, false, Option, none, some, List, ◌≡◌, refl, ◌∙◌, ap, subst, inl, inr, Bool-cases,
  Option-cases, ◌==◌, string_eq, eq_iff, if_cases, nat_beq_iff, nat_eq,
}
use pi_roaster.Base.Dict
use pi_roaster.Base.Dict.{Dict, get-set, get-delete}
use pi_roaster.Tape.View.{Event, View, build_view}
use pi_roaster.Tape.Engine.{World, events_of, refreshed, replay, invalidate}
use pi_roaster.Tape.Equivalence.{retime, build_view-retime}

-- A view that is kept is, but for its turn, the view of the whole tape.
abbrev pub CoherentAt : Option View → List Event → Type 0
CoherentAt none es = Unit
CoherentAt (some v) es = retime 0 v ≡ build_view 0 es

abbrev pub IsCoherent : World → Type 0
IsCoherent w = (session : String) → CoherentAt (Dict.get session w.views) (events_of session w)

-- A change at one session keeps the others.
pub change-IsCoherent :
    (session : String) (w w' : World)
    → ((s : String) → (session == s) ≡ false → Dict.get s w'.views ≡ Dict.get s w.views)
    → ((s : String) → (session == s) ≡ false → events_of s w' ≡ events_of s w)
    → CoherentAt (Dict.get session w'.views) (events_of session w')
    → IsCoherent w
    → IsCoherent w'
change-IsCoherent session w w' views tapes here h s = elim (Bool-cases (session == s)) [
  | inl hit ↦
      subst (λ q. CoherentAt (Dict.get q w'.views) (events_of q w')) ((eq_iff session s).0 hit) here
  | inr miss ↦ rw (views s miss, tapes s miss) (h s)
]

pub get-set_other {ℓ} :
    {V : Type ℓ} (k j : String) (v : V) (m : Dict V)
    → (k == j) ≡ false
    → Dict.get j (Dict.set k v m) ≡ Dict.get j m
get-set_other k j v m miss = get-set k j v m ∙ rw miss refl

pub get-set_same {ℓ} :
    {V : Type ℓ} (k : String) (v : V) (m : Dict V) → Dict.get k (Dict.set k v m) ≡ some v
get-set_same k v m = get-set k k v m ∙ rw ((eq_iff k k).1 refl) refl

get-delete_other {ℓ} :
    {V : Type ℓ} (k j : String) (m : Dict V)
    → (k == j) ≡ false
    → Dict.get j (Dict.delete k m) ≡ Dict.get j m
get-delete_other k j m miss = get-delete k j m ∙ rw miss refl

get-delete_same {ℓ} : {V : Type ℓ} (k : String) (m : Dict V) → Dict.get k (Dict.delete k m) ≡ none
get-delete_same k m = get-delete k k m ∙ rw ((eq_iff k k).1 refl) refl

-- A view that is stored for a session has to agree with the session's tape.
set_view-IsCoherent :
    (session : String) (v : View) (w : World)
    → retime 0 v ≡ build_view 0 (events_of session w)
    → IsCoherent w
    → IsCoherent (record w { views = Dict.set session v w.views })
set_view-IsCoherent session v w e h =
    change-IsCoherent session w (record w { views = Dict.set session v w.views })
      (λ s miss. get-set_other session s v w.views miss) (λ s miss. refl)
      (rw (get-set_same session v w.views) e) h

refreshed-retime : (turn : ℕ) (v : View) → retime 0 (refreshed turn v) ≡ retime 0 v
refreshed-retime turn v = if_cases (λ q. retime 0 q ≡ retime 0 v) _ (λ _. refl) (λ _. refl)

refreshed-eq-retime : (turn : ℕ) (v : View) → refreshed turn v ≡ retime turn v
refreshed-eq-retime turn v =
    if_cases (λ q. q ≡ retime turn v) (v.turn == turn) {x = v} {y = retime turn v}
      (λ same. ap (λ t. retime t v) ((nat_beq_iff v.turn turn).0 same)) (λ _. refl)

pub replay-view :
    (turn : ℕ) (session : String) (w : World)
    → IsCoherent w
    → (replay turn session w).1 ≡ build_view turn (events_of session w)
unfolding replay
replay-view turn session w h = elim (Option-cases (Dict.get session w.views)) [
  | inl missing ↦ rw (missing, replay) refl
  | inr (v, found) ↦
      rw (found, replay)
        (refreshed-eq-retime turn v
          ∙ ap (retime turn) (subst (λ o. CoherentAt o (events_of session w)) found (h session))
          ∙ build_view-retime turn 0 (events_of session w))
]

pub replay-IsCoherent :
    (turn : ℕ) (session : String) (w : World) → IsCoherent w → IsCoherent (replay turn session w).0
unfolding replay
replay-IsCoherent turn session w h = elim (Option-cases (Dict.get session w.views)) [
  | inl missing ↦
      rw (missing, replay)
        (set_view-IsCoherent session (build_view turn (events_of session w)) w
          (build_view-retime 0 turn (events_of session w)) h)
  | inr (v, found) ↦
      rw (found, replay)
        (set_view-IsCoherent session (refreshed turn v) w
          (refreshed-retime turn v
            ∙ subst (λ o. CoherentAt o (events_of session w)) found (h session))
          h)
]

pub invalidate-IsCoherent :
    (session : String) (w : World) → IsCoherent w → IsCoherent (invalidate session w)
unfolding invalidate
invalidate-IsCoherent session w h =
    change-IsCoherent session w (invalidate session w)
      (λ s miss. get-delete_other session s w.views miss) (λ s miss. refl)
      (rw (get-delete_same session w.views) tt) h
