-- ===== src/Session/Running.antt =====
-- src/commands/mod.rs: the loop of EXEC over the queued commands, against a run that keeps the replies so
-- far in order.
use meebis.Base.{ℕ, ◌≡◌, refl, sym, ◌∙◌, ap, List, [], ◌∷◌, ◌++◌, Option, none, some}
use meebis.Base.Bytes.{Bytes}
use meebis.Resp.Frame.{Frame, Frames, nil, cons, array}
use meebis.Session.{Conn, World, Services, Replied, push_reply, run_next, run_queue, replies_of}

-- Commands one after the other, each on what the last one left, with their replies in order; `none` is
-- a panic of one of them.
pub one_by_one :
    (World → Conn → List Bytes → Option Replied)
    → World
    → Conn
    → List Frame
    → List (List Bytes)
    → Option (World × Conn × List Frame)
one_by_one execute w c done [] = some (w, c, done)
one_by_one execute w c done (cmd ∷ cmds) = elim (execute w c cmd) [
  | none ↦ none
  | some r ↦ one_by_one execute r.0 r.1 (done ++ (r.2 ∷ [])) cmds
]

abbrev pub frames : List Frame → Frames
frames [] = nil
frames (f ∷ fs) = cons f (frames fs)

-- The replies as one array.
abbrev pub in_array : Option (World × Conn × List Frame) → Option Replied
in_array none = none
in_array (some (w, c, fs)) = some (w, c, array (frames fs))

prepend : List Frame → Frames → Frames
prepend [] fs = fs
prepend (f ∷ done) fs = cons f (prepend done fs)

-- The replies behind those that there are.
spliced : List Frame → Option (World × Conn × Frames) → Option Replied
unfolding prepend
spliced done none = none
spliced done (some (w, c, fs)) = some (w, c, array (prepend done fs))

prepend-nil : (done : List Frame) → prepend done nil ≡ frames done
unfolding prepend
prepend-nil [] = refl
prepend-nil (f ∷ done) = rw (prepend-nil done) refl

prepend-cons :
    (done : List Frame) (f : Frame) (fs : Frames)
    → prepend done (cons f fs) ≡ prepend (done ++ (f ∷ [])) fs
unfolding prepend
prepend-cons [] f fs = refl
prepend-cons (g ∷ done) f fs = ap (cons g) (prepend-cons done f fs)

spliced-push_reply :
    (done : List Frame) (f : Frame) (o : Option (World × Conn × Frames))
    → spliced done (push_reply f o) ≡ spliced (done ++ (f ∷ [])) o
unfolding spliced push_reply
spliced-push_reply done f none = refl
spliced-push_reply done f (some (w, c, fs)) = rw (prepend-cons done f fs) refl

module _ (s : Services) (now : ℕ) where
  next_lem :
      (done : List Frame) (queue : List (List Bytes)) (o : Option Replied)
      → ((w : World) (c : Conn) (fs : List Frame)
          → spliced fs (run_queue s now queue w c)
            ≡ in_array (one_by_one (s.execute now) w c fs queue))
      → spliced done (run_next o (run_queue s now queue))
        ≡ in_array (elim o [
          | none ↦ none
          | some r ↦ one_by_one (s.execute now) r.0 r.1 (done ++ (r.2 ∷ [])) queue
        ])
  unfolding run_next
  next_lem done queue none h = unfold spliced in refl
  next_lem done queue (some (w, c, f)) h =
      spliced-push_reply done f (run_queue s now queue w c) ∙ h w c (done ++ (f ∷ []))

  run_from :
      (queue : List (List Bytes)) (w : World) (c : Conn) (done : List Frame)
      → spliced done (run_queue s now queue w c)
        ≡ in_array (one_by_one (s.execute now) w c done queue)
  unfolding run_queue one_by_one
  run_from [] w c done = unfold spliced in rw (prepend-nil done) refl
  run_from (cmd ∷ queue) w c done = next_lem done queue (s.execute now w c cmd) (run_from queue)

  spliced-replies_of : (o : Option (World × Conn × Frames)) → spliced [] o ≡ replies_of o
  unfolding spliced prepend replies_of
  spliced-replies_of none = refl
  spliced-replies_of (some (w, c, fs)) = refl

  pub run_queue_lem :
      (queue : List (List Bytes)) (w : World) (c : Conn)
      → replies_of (run_queue s now queue w c) ≡ in_array (one_by_one (s.execute now) w c [] queue)
  run_queue_lem queue w c =
      sym (spliced-replies_of (run_queue s now queue w c)) ∙ run_from queue w c []
