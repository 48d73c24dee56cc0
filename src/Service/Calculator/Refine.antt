-- ===== src/Service/Calculator/Refine.antt =====
-- `cal_IO` of IO/reactor/test.cc against the stream of messages that it answers.
use linux_learning_machine_c.Base.{
  ℕ, zero, suc, ◌<◌, ◌≡◌, sym, ap, ◌∙◌, ◌≢◌, inl, inr, none, some, [], ◌++◌, append-nil,
  append_assoc, length, Bytes, Option-cases, arith,
}
use linux_learning_machine_c.Protocol.Frame.{recvmessage}
use linux_learning_machine_c.Protocol.Frame.Cut.{recvmessage-split, recvmessage-append}
use linux_learning_machine_c.Protocol.Message.Codec.{Codec}
use linux_learning_machine_c.Service.Calculator.{served, crashed, exhausted, answer, serve, cal_io}

served_parts : {s out i o : Bytes} → served s out ≡ served i o → (s ≡ i) × (out ≡ o)
served_parts h = ground arith

module _ (c : Codec) where
  -- Induction over the rounds of the loop: one case for each way a round ends.
  serve_induct {ℓ} :
      (P : ℕ → Bytes → Bytes → Type ℓ)
      → ((f : ℕ) (s out : Bytes) → length s < suc f → recvmessage s ≡ none → P (suc f) s out)
      → ((f : ℕ) (s p r out : Bytes)
          → length s < suc f
          → recvmessage s ≡ some (p, r)
          → answer c p ≡ none
          → P (suc f) s out)
      → ((f : ℕ) (s p r out resp : Bytes)
          → recvmessage s ≡ some (p, r)
          → answer c p ≡ some resp
          → length r < f
          → P f r (out ++ resp)
          → P (suc f) s out)
      → (f : ℕ) (s out : Bytes) → length s < f
      → P f s out
  serve_induct P idle fault round zero s out h = absurd (omega arith)
  serve_induct P idle fault round (suc f) s out h = elim (Option-cases (recvmessage s)) [
    | inl e ↦ idle f s out h e
    | inr ((p, r), e) ↦
        let room : length r < f = omega (arith, recvmessage-split s p r e) in
        elim (Option-cases (answer c p)) [
          | inl a ↦ fault f s p r out h e a
          | inr (resp, a) ↦
              round f s p r out resp e a room
                (serve_induct P idle fault round f r (out ++ resp) room)
        ]
  ]

  serve_idle :
      (f : ℕ) (s out : Bytes) → length s < f → recvmessage s ≡ none → serve c f s out ≡ served s out
  unfolding serve
  serve_idle zero s out h e = absurd (omega arith)
  serve_idle (suc f) s out h e = ground (arith, e)

  serve_fault :
      (f : ℕ) (s p r out : Bytes)
      → length s < f
      → recvmessage s ≡ some (p, r)
      → answer c p ≡ none
      → serve c f s out ≡ crashed
  unfolding serve
  serve_fault zero s p r out h e a = absurd (omega arith)
  serve_fault (suc f) s p r out h e a = ground (arith, e, a)

  serve_round :
      (f : ℕ) (s p r out resp : Bytes)
      → recvmessage s ≡ some (p, r)
      → answer c p ≡ some resp
      → serve c (suc f) s out ≡ serve c f r (out ++ resp)
  unfolding serve
  serve_round f s p r out resp e a = ground (arith, e, a)

  -- More fuel than bytes is enough, and then its amount does not matter.
  serve_fuel :
      (f : ℕ) (s out : Bytes)
      → length s < f
      → (g : ℕ) → length s < g
      → serve c f s out ≡ serve c g s out
  serve_fuel =
      serve_induct (λ f s out. (g : ℕ) → length s < g → serve c f s out ≡ serve c g s out)
        (λ f s out k e g h. serve_idle (suc f) s out k e ∙ sym (serve_idle g s out h e))
        (λ f s p r out k e a g h.
          serve_fault (suc f) s p r out k e a ∙ sym (serve_fault g s p r out h e a))
        (λ f s p r out resp e a room ih. round f s p r out resp e a ih)
    where
      round :
          (f : ℕ) (s p r out resp : Bytes)
          → recvmessage s ≡ some (p, r)
          → answer c p ≡ some resp
          → ((g : ℕ) → length r < g → serve c f r (out ++ resp) ≡ serve c g r (out ++ resp))
          → (g : ℕ) → length s < g
          → serve c (suc f) s out ≡ serve c g s out
      round f s p r out resp e a ih zero h = absurd (omega arith)
      round f s p r out resp e a ih (suc g) h =
          serve_round f s p r out resp e a
          ∙ ih g (omega (arith, recvmessage-split s p r e))
          ∙ sym (serve_round g s p r out resp e a)

  -- The loop ends on every input: the fuel of `cal_io` is always enough.
  pub cal_io-ne-exhausted : (s out : Bytes) → cal_io c s out ≢ exhausted
  unfolding cal_io
  cal_io-ne-exhausted s out =
      serve_induct (λ f s out. serve c f s out ≢ exhausted)
        (λ f s out k e. rw (serve_idle (suc f) s out k e) (λ x. cc))
        (λ f s p r out k e a. rw (serve_fault (suc f) s p r out k e a) (λ x. cc))
        (λ f s p r out resp e a room ih. rw (serve_round f s p r out resp e a) ih) (suc (length s))
        s out (omega arith)

  pub cal_io_idle : (s out : Bytes) → recvmessage s ≡ none → cal_io c s out ≡ served s out
  unfolding cal_io
  cal_io_idle s out e = serve_idle (suc (length s)) s out (omega arith) e

  pub cal_io_round :
      (s p r out resp : Bytes)
      → recvmessage s ≡ some (p, r)
      → answer c p ≡ some resp
      → cal_io c s out ≡ cal_io c r (out ++ resp)
  unfolding cal_io
  cal_io_round s p r out resp e a =
      serve_round (length s) s p r out resp e a
      ∙ serve_fuel (length s) r (out ++ resp) (omega (arith, recvmessage-split s p r e))
          (suc (length r)) (omega arith)

  serve-append :
      (f : ℕ) (s out : Bytes)
      → length s < f
      → (t i o : Bytes) → serve c f s out ≡ served i o
      → cal_io c (s ++ t) out ≡ cal_io c (i ++ t) o
  serve-append =
      serve_induct
        (λ f s out.
          (t i o : Bytes)
          → serve c f s out ≡ served i o
          → cal_io c (s ++ t) out ≡ cal_io c (i ++ t) o)
        (λ f s out k e t i o h.
          let (p, q) = served_parts (sym (serve_idle (suc f) s out k e) ∙ h) in rw (p, q))
        (λ f s p r out k e a t i o h. cc (serve_fault (suc f) s p r out k e a))
        (λ f s p r out resp e a room ih t i o h.
          cal_io_round (s ++ t) p (r ++ t) out resp (recvmessage-append s t p r e) a
          ∙ ih t i o (sym (serve_round f s p r out resp e a) ∙ h))

  -- How the network cuts the stream does not matter: serving what is left of a first piece together
  -- with a second piece is serving both pieces at once.
  pub cal_io-append :
      (s t out i o : Bytes)
      → cal_io c s out ≡ served i o
      → cal_io c (s ++ t) out ≡ cal_io c (i ++ t) o
  unfolding cal_io
  cal_io-append s t out i o h = serve-append (suc (length s)) s out (omega arith) t i o h

  -- What stands in the output buffer already stays in front of the answers.
  serve_front :
      (f : ℕ) (s out : Bytes)
      → length s < f
      → (front i o : Bytes) → serve c f s out ≡ served i o
      → serve c f s (front ++ out) ≡ served i (front ++ o)
  serve_front =
      serve_induct
        (λ f s out.
          (front i o : Bytes)
          → serve c f s out ≡ served i o
          → serve c f s (front ++ out) ≡ served i (front ++ o))
        (λ f s out k e front i o h.
          let (p, q) = served_parts (sym (serve_idle (suc f) s out k e) ∙ h) in
          serve_idle (suc f) s (front ++ out) k e ∙ rw (p, q))
        (λ f s p r out k e a front i o h. cc (serve_fault (suc f) s p r out k e a))
        (λ f s p r out resp e a room ih front i o h.
          serve_round f s p r (front ++ out) resp e a
          ∙ ap (serve c f r) (append_assoc front out resp)
          ∙ ih front i o (sym (serve_round f s p r out resp e a) ∙ h))

  pub cal_io_front :
      (s front i o : Bytes) → cal_io c s [] ≡ served i o → cal_io c s front ≡ served i (front ++ o)
  unfolding cal_io
  cal_io_front s front i o h =
      ap (serve c (suc (length s)) s) (sym (append-nil front))
      ∙ serve_front (suc (length s)) s [] (omega arith) front i o h

  -- What stays in the input buffer holds no complete message.
  pub cal_io-idle : (s out i o : Bytes) → cal_io c s out ≡ served i o → recvmessage i ≡ none
  unfolding cal_io
  cal_io-idle s out =
      serve_induct (λ f s out. (i o : Bytes) → serve c f s out ≡ served i o → recvmessage i ≡ none)
        (λ f s out k e i o h.
          let (p, q) = served_parts (sym (serve_idle (suc f) s out k e) ∙ h) in rw (← p) e)
        (λ f s p r out k e a i o h. cc (serve_fault (suc f) s p r out k e a))
        (λ f s p r out resp e a room ih i o h. ih i o (sym (serve_round f s p r out resp e a) ∙ h))
        (suc (length s)) s out (omega arith)
