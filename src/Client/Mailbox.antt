-- ===== src/Client/Mailbox.antt =====
-- The mailbox of `publishHeadPose` and `takeLatestPose` of
-- quest_client/app/src/main/cpp/native_main.cpp, against a queue that keeps every pose. Each of the
-- two holds the mutex, so that the two threads are any order of their calls.
use mathlib.Core.Path.{subst}
use robo_vr.Base.{◌≡◌, refl, sym, append_assoc, ap, ◌∙◌, List, [], ◌∷◌, ◌++◌, Option, none, some}
use robo_vr.Socket.Api.{Socket}
use robo_vr.Video.Decoder.State.{Millis}
use robo_vr.Client.Transport.{Client, Floats, publish_head_pose, take_latest_pose}

pub data Turn (P : Type 0) : Type 0 where
  publishes : P → Turn P
  takes : Turn P

-- The poses that were taken, by the turns that found one.
abbrev pub taken : {P : Type 0} → Option P → List P → List P
taken none later = later
taken (some p) later = p ∷ later

-- The queue: a taker gets its newest pose and empties it.
abbrev pub newest : {P : Type 0} → List P → Option P
newest [] = none
newest (p ∷ []) = some p
newest (p ∷ q ∷ ps) = newest (q ∷ ps)

abbrev pub take_newest : {P : Type 0} → List (Turn P) → List P → List P
take_newest [] queue = []
take_newest (publishes p ∷ turns) queue = take_newest turns (queue ++ p ∷ [])
take_newest (takes ∷ turns) queue = taken (newest queue) (take_newest turns [])

abbrev pub published : {P : Type 0} → List (Turn P) → List P
published [] = []
published (publishes p ∷ turns) = p ∷ published turns
published (takes ∷ turns) = published turns

-- The first list is the second with elements left out.
pub data Sublist {P : Type 0} : List P → List P → Type 0 where
  done : Sublist [] []
  left_out : {xs ys : List P} → (y : P) → Sublist xs ys → Sublist xs (y ∷ ys)
  kept : {xs ys : List P} → (y : P) → Sublist xs ys → Sublist (y ∷ xs) (y ∷ ys)

module _ (s : Socket) {f : Millis} (g : Floats) {P : Type 0} where
  -- The two functions in the order of the turns: the poses that are taken for sending.
  unfoldable pub run_mailbox : List (Turn P) → Client s f g P → List P
  unfolding publish_head_pose take_latest_pose
  run_mailbox [] c = []
  run_mailbox (publishes p ∷ turns) c = run_mailbox turns (publish_head_pose s g p c)
  run_mailbox (takes ∷ turns) c =
      let (pose, c') = take_latest_pose s g c in taken pose (run_mailbox turns c')

newest-snoc : {P : Type 0} (ps : List P) (p : P) → newest (ps ++ p ∷ []) ≡ some p
newest-snoc [] p = refl
newest-snoc (q ∷ []) p = refl
newest-snoc (q ∷ r ∷ ps) p = newest-snoc (r ∷ ps) p

Sublist-none : {P : Type 0} (ps xs ys : List P) → Sublist xs ys → Sublist xs (ps ++ ys)
Sublist-none [] xs ys h = h
Sublist-none (p ∷ ps) xs ys h = left_out p (Sublist-none ps xs ys h)

Sublist-taken :
    {P : Type 0} (ps xs ys : List P) → Sublist xs ys → Sublist (taken (newest ps) xs) (ps ++ ys)
Sublist-taken [] xs ys h = h
Sublist-taken (p ∷ []) xs ys h = kept p h
Sublist-taken (p ∷ q ∷ ps) xs ys h = left_out p (Sublist-taken (q ∷ ps) xs ys h)

take_newest-Sublist :
    {P : Type 0} (turns : List (Turn P)) (queue : List P)
    → Sublist (take_newest turns queue) (queue ++ published turns)
take_newest-Sublist [] queue = Sublist-none queue [] [] done
take_newest-Sublist (publishes p ∷ turns) queue =
    subst (Sublist (take_newest turns (queue ++ p ∷ [])))
      (append_assoc queue (p ∷ []) (published turns)) (take_newest-Sublist turns (queue ++ p ∷ []))
take_newest-Sublist (takes ∷ turns) queue =
    Sublist-taken queue (take_newest turns []) (published turns) (take_newest-Sublist turns [])

module _ (s : Socket) {f : Millis} (g : Floats) {P : Type 0} where
  run_mailbox-take_newest :
      (turns : List (Turn P)) (c : Client s f g P) (queue : List P)
      → c.latest_pose ≡ newest queue
      → run_mailbox s g turns c ≡ take_newest turns queue
  unfolding run_mailbox publish_head_pose take_latest_pose
  run_mailbox-take_newest [] c queue e = refl
  run_mailbox-take_newest (publishes p ∷ turns) c queue e =
      run_mailbox-take_newest turns _ (queue ++ p ∷ []) (sym (newest-snoc queue p))
  run_mailbox-take_newest (takes ∷ turns) c queue e =
      let emptied : Client s f g P = record c { latest_pose = none } in
      ap (λ o. taken o (run_mailbox s g turns emptied)) e
      ∙ ap (taken (newest queue)) (run_mailbox-take_newest turns emptied [] refl)

  -- In any order of the calls of the two threads, the mailbox of one pose does what a queue of all
  -- poses does whose taker gets the newest and drops the others. So a pose is sent at most once, the
  -- poses sent are in the order in which they were published, and a taker gets the newest one.
  pub run_mailbox_lem :
      (turns : List (Turn P)) (c : Client s f g P) (queue : List P)
      → c.latest_pose ≡ newest queue
      → (run_mailbox s g turns c ≡ take_newest turns queue)
        × Sublist (run_mailbox s g turns c) (queue ++ published turns)
  run_mailbox_lem turns c queue e =
      let same = run_mailbox-take_newest turns c queue e in
      (
        same,
        subst (λ xs. Sublist xs (queue ++ published turns)) (sym same)
            (take_newest-Sublist turns queue),
      )
