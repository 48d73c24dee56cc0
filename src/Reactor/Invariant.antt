-- ===== src/Reactor/Invariant.antt =====
-- The invariant of the server of IO/reactor, and that every handler keeps it.
use linux_learning_machine_c.Base.{
  ℕ, ◌≡◌, sym, subst, All, ◌∙◌, true, Option, none, some, List, [], ◌∷◌, Bytes, arith,
}
use linux_learning_machine_c.Reactor.Connection.{
  Connection, settime, reg, ReadCallback, WriteCallback, new_connection,
}
use linux_learning_machine_c.Reactor.Rules.{writer_rule, recver_rule, recver_chunk-ok}
use linux_learning_machine_c.Reactor.Manager.{
  Conns, getconnptr, is_alive, modify, getconnptr-newconn, getconnptr-deleconn, getconnptr-modify,
}
use linux_learning_machine_c.Reactor.Kernel.{
  eagain, eintr, other, Read, Write, Accept, accepted, accept_error,
}
use linux_learning_machine_c.Reactor.World.{World, ok, on_conn, deref, >>=-eq-ok}
use linux_learning_machine_c.Reactor.Trace.{armed, watched, IsSound}
use linux_learning_machine_c.Reactor.Server.{
  closefd, sent_part, writer_end, writer, accept_one, acceptor, recver_chunk, recver, keep_buffers,
}

-- epoll watches exactly the descriptors that have a connection, and no call went astray.
pub record Inv (w : World) : Type 0 where
  pub tracked : (fd : ℕ) → watched fd w.trace ≡ is_alive fd w.conns
  pub sound : IsSound w.trace

is_alive-modify :
    (j fd : ℕ) (f : Connection → Connection) (cs : Conns)
    → is_alive j (modify fd f cs) ≡ is_alive j cs
is_alive-modify j fd f cs = ground (arith, getconnptr-modify j fd f cs)

module _ (fd : ℕ) (w : World) (v : Inv w) where
  on_conn-Inv : (f : Connection → Connection) → Inv (on_conn fd f w)
  on_conn-Inv f = record {
    tracked = λ j. v.tracked j ∙ sym (is_alive-modify j fd f w.conns);
    sound = v.sound;
  }

  module _ (alive : is_alive fd w.conns ≡ true) where
    closefd-Inv : Inv (closefd fd w)
    unfolding closefd armed
    closefd-Inv = record {
      tracked = λ j. ground (arith, getconnptr-deleconn j fd w.conns, v.tracked j);
      sound = (ground arith, (v.tracked fd ∙ alive, v.sound));
    }

    sent_part-Inv : (size : ℕ) (out : Bytes) → Inv (sent_part fd size out w)
    unfolding armed
    sent_part-Inv size out = record {
      tracked = λ j. v.tracked j ∙ sym (is_alive-modify j fd _ w.conns);
      sound = (v.tracked fd ∙ alive, v.sound);
    }

    writer_end-Inv : (out : Bytes) → Inv (writer_end fd out w)
    unfolding writer_end armed
    writer_end-Inv out = record {
      tracked = λ j. ground (arith, v.tracked j, is_alive-modify j fd (settime 0 w.clock) w.conns);
      sound = (v.tracked fd ∙ alive, v.sound);
    }

abbrev KeepsInv : World → World → Type 0
KeepsInv w w' = Inv w → Inv w'

alive_of_some :
    (fd : ℕ) (cs : Conns) {c : Connection} → getconnptr fd cs ≡ some c → is_alive fd cs ≡ true
alive_of_some fd cs e = rw e

pub with_writes : (w : World) (ws : List Write) → Inv w → Inv (record w { writes = ws })
with_writes w ws v = record { tracked = v.tracked; sound = v.sound }

pub writer-Inv : (fd : ℕ) (w w' : World) → writer fd w ≡ ok w' → Inv w → Inv w'
unfolding writer
writer-Inv fd w w' =
    writer_rule fd KeepsInv (λ w c ws e v. with_writes w ws v)
      (λ w c ws n e z v.
        closefd-Inv fd (record w { writes = ws }) (with_writes w ws v) (alive_of_some fd w.conns e))
      (λ w c ws size e z v.
        let v' = sent_part-Inv fd w v (alive_of_some fd w.conns e) size c.outbuf in
        writer_end-Inv fd (record (sent_part fd size c.outbuf w) { writes = ws })
          (with_writes _ ws v') (is_alive-modify fd fd _ w.conns ∙ alive_of_some fd w.conns e) _)
      (λ w c w' size e keep v.
        keep (sent_part-Inv fd w v (alive_of_some fd w.conns e) size c.outbuf))
      w.writes w w'

accept_one-Inv : (fd : ℕ) (w : World) → Inv w → Inv (accept_one fd true w)
unfolding accept_one armed
accept_one-Inv fd w v = record {
  tracked = λ j. ground (
    arith,
    getconnptr-newconn j fd
        (settime 0 w.clock
          (reg (new_connection fd) (some ReadCallback.recver) (some WriteCallback.writer) none))
        w.conns,
    v.tracked j,
  );
  sound = v.sound;
}

-- A new descriptor is added to epoll.
abbrev pub IsAdded : Accept → Type 0
IsAdded (accepted fd added) = added ≡ true
IsAdded (accept_error e) = Unit

pub acceptor-Inv :
    (answers : List Accept) (w : World) → All IsAdded answers → Inv w → Inv (acceptor answers w)
unfolding acceptor
acceptor-Inv [] w h v = v
acceptor-Inv (accepted fd added ∷ r) w h v =
    acceptor-Inv r (accept_one fd added w) h.1
      (subst (λ b. Inv (accept_one fd b w)) (sym h.0) (accept_one-Inv fd w v))
acceptor-Inv (accept_error eagain ∷ r) w h v = v
acceptor-Inv (accept_error eintr ∷ r) w h v = acceptor-Inv r w h.1 v
acceptor-Inv (accept_error other ∷ r) w h v = v

module _ (callback : Bytes → Bytes → Option (Bytes × Bytes)) where
  recver_chunk-Inv :
      (b : Bytes) (fd : ℕ) (w w' : World) → recver_chunk callback b fd w ≡ ok w' → Inv w → Inv w'
  recver_chunk-Inv b fd w w' h v =
      let (c, bufs, _, _, r) = recver_chunk-ok callback b fd w w' h in
      writer-Inv fd (keep_buffers callback fd bufs w) w' r (on_conn-Inv fd w v _)

  pub recver-Inv :
      (rs : List Read) (fd : ℕ) (w w' : World) → recver callback rs fd w ≡ ok w' → Inv w → Inv w'
  unfolding recver
  recver-Inv rs fd w w' h v =
      let (c, _, k) = >>=-eq-ok (deref fd w) _ h in
      recver_rule callback fd KeepsInv (λ w v. v)
        (λ w c e v. closefd-Inv fd w v (alive_of_some fd w.conns e))
        (λ w w1 w' b e keep v. keep (recver_chunk-Inv b fd w w1 e v)) rs _ w' k
        (on_conn-Inv fd w v (settime 0 w.clock))
