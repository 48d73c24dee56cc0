-- ===== src/Multiplex/Select/Pass.antt =====
-- IO/select_server: one pass over the array, compared with serving each entry on its own.
use linux_learning_machine_c.Base.{
  ℕ, suc, ◌≡◌, refl, sym, ◌∙◌, ap, false, ◌==◌, if◌then◌else◌, Option, none, some, ◌>>=◌,
  Option-cases, inl, inr, List, [], ◌∷◌, ◌++◌, Bytes, snoc-append, length-snoc, length,
  get_or-length, set-length, arith, Bool-cases,
}
use linux_learning_machine_c.Reactor.Kernel.{Read}
use linux_learning_machine_c.Multiplex.Call.{Call, asked, answered, closed, line_of}
use linux_learning_machine_c.Multiplex.Select.{
  Slots, SelectServer, Answers, recver, handle_fd, handle_slot, handle_from, handle_readevents,
}

module _ (callback : Bytes → Option Bytes) where
  -- A client that is asked: whether it stays, and the calls.
  abbrev pub serve_read : ℕ → Read → Option (Option ℕ × List Call)
  serve_read fd (Read.got chunk) =
      callback (line_of chunk) >>= λ resp. some (some fd, answered fd resp ∷ asked fd ∷ [])
  serve_read fd Read.closed = some (none, closed fd ∷ asked fd ∷ [])
  serve_read fd (Read.read_error e) = some (none, closed fd ∷ asked fd ∷ [])

  abbrev pub serve_one : Answers → Option ℕ → Option (Option ℕ × List Call)
  serve_one a none = some (none, [])
  serve_one a (some fd) = if a.ready fd then serve_read fd (a.reads fd) else some (some fd, [])

  -- Every entry on its own, in the order of the array.
  unfoldable pub serve_all : Answers → Slots → List Call → Option (Slots × List Call)
  serve_all a [] t = some ([], t)
  serve_all a (x ∷ xs) t =
      serve_one a x >>= λ (y, cs). serve_all a xs (cs ++ t) >>= λ (ys, t'). some (y ∷ ys, t')

  abbrev pub with_slots : SelectServer → Slots → List Call → SelectServer
  with_slots s xs t = record s { rfdarray = xs; trace = t }

  recver-serve_read :
      (r : Read) (pre : Slots) (fd : ℕ) (post : Slots) (s : SelectServer) (t : List Call)
      → recver callback r (length pre) fd (with_slots s (pre ++ some fd ∷ post) t)
        ≡ (serve_read fd r >>= λ (y, cs). some (with_slots s (pre ++ y ∷ post) (cs ++ t)))
  unfolding recver
  recver-serve_read (Read.got chunk) pre fd post s t =
      elim (Option-cases (callback (line_of chunk))) [ inl e ↦ rw (e) | inr (resp, e) ↦ rw (e) ]
  recver-serve_read Read.closed pre fd post s t =
      ap (λ xs. some (with_slots s xs (closed fd ∷ asked fd ∷ t)))
        (set-length pre (some fd) post none)
  recver-serve_read (Read.read_error x) pre fd post s t =
      ap (λ xs. some (with_slots s xs (closed fd ∷ asked fd ∷ t)))
        (set-length pre (some fd) post none)

  handle_fd-serve :
      (a : Answers) (pre : Slots) (fd : ℕ) (post : Slots) (s : SelectServer) (t : List Call)
      → a.ready s.sock ≡ false
      → handle_fd callback a (length pre) fd (with_slots s (pre ++ some fd ∷ post) t)
        ≡ (serve_one a (some fd) >>= λ (y, cs). some (with_slots s (pre ++ y ∷ post) (cs ++ t)))
  unfolding handle_fd
  handle_fd-serve a pre fd post s t quiet = elim (Bool-cases (a.ready fd)) [
    | inr e ↦ rw (e)
    | inl e ↦ elim (Bool-cases (fd == s.sock)) [
      | inl same ↦ ground arith
      | inr other ↦ rw (e, other) (recver-serve_read (a.reads fd) pre fd post s t)
    ]
  ]

  handle_slot-serve :
      (a : Answers) (pre : Slots) (x : Option ℕ) (post : Slots) (s : SelectServer) (t : List Call)
      → a.ready s.sock ≡ false
      → handle_slot callback a (length pre) (with_slots s (pre ++ x ∷ post) t)
        ≡ (serve_one a x >>= λ (y, cs). some (with_slots s (pre ++ y ∷ post) (cs ++ t)))
  unfolding handle_slot
  handle_slot-serve a pre none post s t quiet = rw (get_or-length pre none post none, handle_slot)
  handle_slot-serve a pre (some fd) post s t quiet =
      rw (get_or-length pre (some fd) post none, handle_slot)
        (handle_fd-serve a pre fd post s t quiet)

  -- The entry that was served goes over to the front part.
  pass_on :
      (a : Answers) (y : Option ℕ) (post pre : Slots) (s : SelectServer) (t : List Call)
      → handle_from callback a
          (length post)
          (length (pre ++ y ∷ []))
          (with_slots s ((pre ++ y ∷ []) ++ post) t)
        ≡ (serve_all a post t >>= λ (ys, t'). some (with_slots s ((pre ++ y ∷ []) ++ ys) t'))
      → handle_from callback a (length post) (suc (length pre)) (with_slots s (pre ++ y ∷ post) t)
        ≡ ((serve_all a post t >>= λ (ys, t'). some (y ∷ ys, t')) >>= λ (ys, t').
            some (with_slots s (pre ++ ys) t'))
  pass_on a y post pre s t h =
      ap (λ xs. handle_from callback a (length post) (suc (length pre)) (with_slots s xs t))
        (sym (snoc-append pre y post))
      ∙ ap (λ n. handle_from callback a (length post) n (with_slots s ((pre ++ y ∷ []) ++ post) t))
          (sym (length-snoc pre y))
      ∙ h
      ∙ elim (Option-cases (serve_all a post t)) [
        | inl e ↦ rw (e)
        | inr ((ys, t'), e) ↦ rw (e) (ap (λ xs. some (with_slots s xs t')) (snoc-append pre y ys))
      ]

  handle_from-serve :
      (a : Answers) (post pre : Slots) (s : SelectServer) (t : List Call)
      → a.ready s.sock ≡ false
      → handle_from callback a (length post) (length pre) (with_slots s (pre ++ post) t)
        ≡ (serve_all a post t >>= λ (ys, t'). some (with_slots s (pre ++ ys) t'))
  unfolding handle_from serve_all
  handle_from-serve a [] pre s t quiet = refl
  handle_from-serve a (x ∷ post) pre s t quiet =
      ap (λ m. m >>= λ s'. handle_from callback a (length post) (suc (length pre)) s')
        (handle_slot-serve a pre x post s t quiet)
      ∙ elim (Option-cases (serve_one a x)) [
        | inl e ↦ rw (e)
        | inr ((y, cs), e) ↦ rw (e) (
            pass_on a y post pre s (cs ++ t)
              (handle_from-serve a post (pre ++ y ∷ []) s (cs ++ t) quiet))
      ]

  -- If the listening socket is not reported, one pass over the array serves each entry on its own:
  -- a client that is reported is read once and answered, or closed; the others stay as they were.
  -- No entry is skipped, and none is served twice.
  pub handle_readevents-serve_all :
      (a : Answers) (s : SelectServer)
      → a.ready s.sock ≡ false
      → handle_readevents callback a s
        ≡ (serve_all a s.rfdarray s.trace >>= λ (ys, t). some (with_slots s ys t))
  unfolding handle_readevents
  handle_readevents-serve_all a s quiet = handle_from-serve a s.rfdarray [] s s.trace quiet
