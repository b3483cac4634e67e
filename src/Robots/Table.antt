-- ===== src/Robots/Table.antt =====
-- What the table holds for a robot.
use rises.Base.{
  ◌≡◌, refl, ap, inl, inr, Bool-cases, ◌∙◌, List, [], ◌∷◌, Option, none, some, if◌then◌else◌, Text,
  text_eq, text_eq_iff,
}
use rises.Base.Dict.{lookup, update, lookup-update, lookup-erase, or_new, text_keys}
use rises.Robots.{
  RobotInfo, RobotTracker, fresh_info, update_robot_pose, set_robot_footprint, remove_robot, Change,
  moves, shapes, leaves, forgets, step, run,
}

changed :
    {V : Type 0} (k name : Text) (new : V) (f : V → V) (m : List (Text × V))
    → lookup name (update k new f m)
      ≡ (if text_eq k name then some (f (or_new new (lookup name m))) else lookup name m)
changed k name new f m = elim (Bool-cases (text_eq k name)) [
  | inl e ↦
      let same : k ≡ name = (text_eq_iff k name).0 e in
      lookup-update k name new f m ∙ rw e (ap (λ j. some (f (or_new new (lookup j m)))) same)
  | inr e ↦ lookup-update k name new f m ∙ rw e refl
]

module _ {Position Footprint : Type 0} (home : Position) (outline : Footprint) where
  -- One robot by itself, as the changes leave it.
  abbrev pub followed :
      Text
      → List (Change Position Footprint)
      → Option (RobotInfo Position Footprint)
      → Option (RobotInfo Position Footprint)
  followed name [] found = found
  followed name (moves robot_id pose ∷ rest) found = followed name rest (
      if text_eq robot_id name
      then some (record (or_new (fresh_info home outline) found) { pose = pose })
      else found)
  followed name (shapes robot_id footprint ∷ rest) found = followed name rest (
      if text_eq robot_id name
      then some (record (or_new (fresh_info home outline) found) { footprint = footprint })
      else found)
  followed name (leaves robot_id ∷ rest) found =
      followed name rest (if text_eq robot_id name then none else found)
  followed name (forgets ∷ rest) found = followed name rest none

  step-followed :
      (c : Change Position Footprint) (rest : List (Change Position Footprint)) (name : Text)
      (robots : RobotTracker Position Footprint)
      → followed name rest (lookup name (step home outline c robots))
        ≡ followed name (c ∷ rest) (lookup name robots)
  unfolding step update_robot_pose set_robot_footprint remove_robot lookup
  step-followed (moves robot_id pose) rest name robots =
      ap (followed name rest) (
        changed robot_id name (fresh_info home outline) (λ info. record info { pose = pose })
          robots)
  step-followed (shapes robot_id footprint) rest name robots = ap (followed name rest) (
      changed robot_id name (fresh_info home outline)
        (λ info. record info { footprint = footprint }) robots)
  step-followed (leaves robot_id) rest name robots =
      ap (followed name rest) (lookup-erase robot_id name robots)
  step-followed forgets rest name robots = refl

  run-followed_from :
      (cs : List (Change Position Footprint)) (name : Text)
      (robots : RobotTracker Position Footprint)
      → lookup name (run home outline cs robots) ≡ followed name cs (lookup name robots)
  unfolding run
  run-followed_from [] name robots = refl
  run-followed_from (c ∷ cs) name robots =
      run-followed_from cs name (step home outline c robots) ∙ step-followed c cs name robots

  -- After any changes from the empty tracker, the entry of a robot is that of its own changes, in
  -- their order: its last pose and its last footprint since it was last removed, or since the last
  -- clearing, and what was not set is as at first; other robots' changes do not touch it.
  pub run-followed :
      (cs : List (Change Position Footprint)) (name : Text)
      → lookup name (run home outline cs []) ≡ followed name cs none
  unfolding lookup
  run-followed cs name = run-followed_from cs name []
