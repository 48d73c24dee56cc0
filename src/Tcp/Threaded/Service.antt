-- ===== src/Tcp/Threaded/Service.antt =====
-- tcp_t/test/server_tcp.hpp: which connections are served.
use linux_learning_machine_c.Base.{
  ℕ, zero, suc, ◌+◌, ◌≤◌, ◌==◌, if◌then◌else◌, ◌≡◌, refl, ap, Option, none, some, List, [], ◌∷◌,
  ◌++◌, get_elem?, set, total, total-set, total-append, arith,
}
use linux_learning_machine_c.Tcp.Threaded.{
  Worker, created, serving, done, Server, started, is_created, Step, connect, end_round, fetch,
  fault, finish, IsPrompt, Run, stop, broken, step, EachPrompt,
}

abbrev pub one_if : ℕ → ℕ → ℕ
one_if k fd = if fd == k then 1 else 0

-- How often `k` stands in the list.
abbrev pub count : ℕ → List ℕ → ℕ
count k = total (one_if k)

-- The threads that serve or have served `k`, and those that have finished it.
abbrev pub holds : ℕ → Worker → ℕ
holds k created = 0
holds k (serving fd) = one_if k fd
holds k (done fd) = one_if k fd

abbrev pub finished : ℕ → Worker → ℕ
finished k created = 0
finished k (serving fd) = 0
finished k (done fd) = one_if k fd

abbrev present : Option ℕ → ℕ
present none = 0
present (some fd) = 1

-- The connection that waits for its thread, where so many threads have not read their argument.
abbrev waiting : ℕ → ℕ → Option ℕ → ℕ
waiting k fresh none = 0
waiting k zero (some fd) = 0
waiting k (suc n) (some fd) = one_if k fd

-- One thread at most has not read its argument, and then the local lives; every connection is served
-- by as many threads as it was accepted, but for the one that waits.
record IsServed (s : Server) : Type 0 where
  fresh : total is_created s.threads ≤ present s.local
  each :
      (k : ℕ)
      → total (holds k) s.threads + waiting k (total is_created s.threads) s.local
        ≡ count k s.accepted
  shut : (k : ℕ) → total (finished k) s.threads ≡ count k s.closed

waiting_none : (k n : ℕ) (o : Option ℕ) → n ≡ 0 → waiting k n o ≡ 0
waiting_none k n none e = refl
waiting_none k n (some fd) e = rw e

waiting_one : (k n fd : ℕ) → n ≡ 1 → waiting k n (some fd) ≡ one_if k fd
waiting_one k n fd e = rw e

Step-IsServed : {s t : Server} → IsServed s → (x : Step s (some t)) → IsPrompt x → IsServed t
Step-IsServed {s} v (connect fd e) prompt =
    let none_fresh : total is_created s.threads ≡ 0 = omega (arith, v.fresh, ap present e) in
    let one_fresh : total is_created (s.threads ++ created ∷ []) ≡ 1 =
      omega (arith, total-append is_created s.threads (created ∷ [])) in
    record {
      fresh = omega arith;
      each = λ k. omega (
        arith,
        v.each k,
        waiting_none k (total is_created s.threads) s.local none_fresh,
        waiting_one k (total is_created (s.threads ++ created ∷ [])) fd one_fresh,
        total-append (holds k) s.threads (created ∷ []),
        total-append (one_if k) s.accepted (fd ∷ []),
      );
      shut = λ k. omega (arith, v.shut k, total-append (finished k) s.threads (created ∷ []));
    }
Step-IsServed {s} v (end_round fd e) prompt = record {
  fresh = omega arith;
  each = λ k. omega (
    arith,
    v.each k,
    waiting_none k (total is_created s.threads) s.local prompt,
    waiting_none k (total is_created s.threads) none prompt,
  );
  shut = v.shut;
}
Step-IsServed {s} v (fetch i fd e f) prompt =
    let changed = total-set is_created s.threads i created (serving fd) e in
    let now : total is_created (set s.threads i (serving fd)) ≡ 0 =
      omega (arith, v.fresh, ap present f) in
    let before : total is_created s.threads ≡ 1 = omega (arith, v.fresh, ap present f) in
    record {
      fresh = omega arith;
      each = λ k. omega (
        arith,
        v.each k,
        ap (waiting k (total is_created s.threads)) f,
        waiting_one k (total is_created s.threads) fd before,
        waiting_none k (total is_created (set s.threads i (serving fd))) s.local now,
        total-set (holds k) s.threads i created (serving fd) e,
      );
      shut =
          λ k. omega (arith, v.shut k, total-set (finished k) s.threads i created (serving fd) e);
    }
Step-IsServed {s} v (finish i fd e) prompt =
    let same : total is_created (set s.threads i (done fd)) ≡ total is_created s.threads =
      omega (arith, total-set is_created s.threads i (serving fd) (done fd) e) in
    record {
      fresh = omega (arith, v.fresh);
      each = λ k. omega (
        arith,
        v.each k,
        ap (λ n. waiting k n s.local) same,
        total-set (holds k) s.threads i (serving fd) (done fd) e,
      );
      shut = λ k. omega (
        arith,
        v.shut k,
        total-set (finished k) s.threads i (serving fd) (done fd) e,
        total-append (one_if k) s.closed (fd ∷ []),
      );
    }

-- A thread that is there is counted.
total-ge :
    (xs : List Worker) (i : ℕ) (x : Worker)
    → get_elem? xs i ≡ some x
    → is_created x ≤ total is_created xs
total-ge xs i x e = omega (arith, total-set is_created xs i x (done 0) e)

no_fault : {s : Server} → IsServed s → Step s none → ⊥
no_fault {s} v (fault i e f) =
    absurd (omega (arith, v.fresh, ap present f, total-ge s.threads i created e))

Run-IsServed :
    {s : Server} {o : Option Server}
    → IsServed s
    → (run : Run s o) → EachPrompt run
    → (t : Server) × (o ≡ some t) × IsServed t
Run-IsServed {s} v stop prompt = (s, refl, v)
Run-IsServed v (broken x) prompt = absurd (no_fault v x)
Run-IsServed v (step x run) prompt = Run-IsServed (Step-IsServed v x prompt.0) run prompt.1

finished-le : (k : ℕ) (ws : List Worker) → total (finished k) ws ≤ total (holds k) ws
finished-le k [] = omega arith
finished-le k (created ∷ ws) = omega (arith, finished-le k ws)
finished-le k (serving fd ∷ ws) = omega (arith, finished-le k ws)
finished-le k (done fd ∷ ws) = omega (arith, finished-le k ws)

waiting-le : (k n : ℕ) (o : Option ℕ) → waiting k n o ≤ n
waiting-le k n none = omega arith
waiting-le k zero (some fd) = omega arith
waiting-le k (suc n) (some fd) = ground arith

started-IsServed : IsServed started
started-IsServed = record { fresh = omega arith; each = λ k. omega arith; shut = λ k. omega arith }

-- If every round of `run` ends only when the new thread has read its argument, no thread reads a local
-- that is gone, and every descriptor is served by as many threads as it was accepted, but for threads
-- that have not read their argument, and closed no oftener than it is served.
pub prompt_serves :
    (o : Option Server) (run : Run started o)
    → EachPrompt run
    → (s : Server) × (o ≡ some s)
      × ((k : ℕ)
          → (total (holds k) s.threads ≤ count k s.accepted)
            × (count k s.accepted ≤ total (holds k) s.threads + total is_created s.threads)
            × (count k s.closed ≤ total (holds k) s.threads))
prompt_serves o run prompt =
    let (s, e, v) = Run-IsServed started-IsServed run prompt in
    (
      s,
      e,
      λ k. (
        omega (arith, v.each k),
        omega (arith, v.each k, waiting-le k (total is_created s.threads) s.local),
        omega (arith, v.shut k, finished-le k s.threads),
      ),
    )
