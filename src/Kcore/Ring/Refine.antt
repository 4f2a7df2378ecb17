-- ===== src/Kcore/Ring/Refine.antt =====
-- A valid `RingBuffer` behaves as the queue of the values that it holds.
use native.Mathlib.Nat.{mod-eq_of_lt, mod-eq-sub-mod, add-mod, mod-mod}
use native.Mathlib.Decide.{dec_lt}
use mathlib.Core.List.{map-append}
use tarn_os.Prelude.{
  ℕ, zero, suc, ◌+◌, ◌-◌, ◌%◌, ◌^◌, ◌≤◌, ◌<◌, ◌≡◌, refl, sym, ap, ap₂, ◌∙◌, ◌≢◌, true, false, List,
  [], ◌∷◌, ◌++◌, map, Option, none, some, arith, length, set, get_or, get_or-set_self,
  get_or-set_ne, ◌==◌, ==_iff, ==_ne, ℕ_discrete, subst,
}
use tarn_os.Kcore.Ring.Fifo
use tarn_os.Kcore.Ring.Fifo.{Op, put, get, Reply, pushed, popped}
use tarn_os.Kcore.Ring.{RingBuffer, add_usize, new, is_empty, push, pop}
use tarn_os.Kcore.Ring.Valid.{IsValid, new-IsValid, push-IsValid, pop-IsValid}

-- Two places of one turn round the ring are different slots.
turn : {c h k n : ℕ} → h < c → k < n → n < c → (h + k) % c ≢ (h + n) % c
turn {c} {h} {k} {n} hc kn nc = elim (dec_lt (h + n) c) [
  | yes p ↦ omega (arith, mod-eq_of_lt p, mod-eq_of_lt {n = h + k} {m = c} (omega arith))
  | no p ↦
      let wraps : (h + n) % c ≡ h + n - c =
        mod-eq-sub-mod {n = h + n} {m = c} (omega arith)
        ∙ mod-eq_of_lt {n = h + n - c} {m = c} (omega arith) in
      elim (dec_lt (h + k) c) [
        | yes q ↦ omega (arith, wraps, mod-eq_of_lt q)
        | no q ↦ omega (
          arith,
          wraps,
          mod-eq-sub-mod {n = h + k} {m = c} (omega arith),
          mod-eq_of_lt {n = h + k - c} {m = c} (omega arith),
        )
      ]
]

module _ {ℓ} {T : Type ℓ} where
  -- The `n` slots from place `h` on, places counted round the ring.
  abbrev pub span : List (Option T) → ℕ → ℕ → ℕ → List (Option T)
  span buffer c h zero = []
  span buffer c h (suc n) = get_or buffer (h % c) none ∷ span buffer c (h + 1) n

  span-cong :
      (buffer : List (Option T)) (c n a b : ℕ)
      → a % c ≡ b % c
      → span buffer c a n ≡ span buffer c b n
  span-cong buffer c zero a b e = refl
  span-cong buffer c (suc n) a b e = ap₂ ◌∷◌ (ap (λ i. get_or buffer i none) e) (
      span-cong buffer c n (a + 1) (b + 1)
        (add-mod a 1 c ∙ ap (λ t. (t + 1 % c) % c) e ∙ sym (add-mod b 1 c)))

  span-snoc :
      (buffer : List (Option T)) (c h n : ℕ)
      → span buffer c h (suc n) ≡ span buffer c h n ++ get_or buffer ((h + n) % c) none ∷ []
  span-snoc buffer c h zero = ap (λ i. get_or buffer i none ∷ []) (ap (λ t. t % c) (omega arith))
  span-snoc buffer c h (suc n) = ap (◌∷◌ (get_or buffer (h % c) none)) (
      span-snoc buffer c (h + 1) n
      ∙ ap (λ t. span buffer c (h + 1) n ++ get_or buffer (t % c) none ∷ []) (omega arith))

  span-set :
      (buffer : List (Option T)) (c n h i : ℕ) (v : Option T)
      → ((k : ℕ) → k < n → (h + k) % c ≢ i)
      → span (set buffer i v) c h n ≡ span buffer c h n
  span-set buffer c zero h i v apart = refl
  span-set buffer c (suc n) h i v apart =
      ap₂ ◌∷◌ (get_or-set_ne buffer i (h % c) v none (λ e. apart 0 (omega arith) (first ∙ sym e))) (
        span-set buffer c n (h + 1) i v
          (λ k l e. apart (suc k) (omega arith) (ap (λ t. t % c) (omega arith) ∙ e)))
    where
      first : (h + 0) % c ≡ h % c
      first = ap (λ t. t % c) (omega arith)

  length-span : (buffer : List (Option T)) (c h n : ℕ) → length (span buffer c h n) ≡ n
  length-span buffer c h zero = refl
  length-span buffer c h (suc n) = ap suc (length-span buffer c (h + 1) n)

  length-map-some : (xs : List T) → length (map {B = Option T} some xs) ≡ length xs
  length-map-some [] = refl
  length-map-some (x ∷ xs) = ap suc (length-map-some xs)

  -- The occupied slots hold exactly the values of `xs`, oldest first.
  pub record Represents (r : RingBuffer T) (xs : List T) : Type ℓ where
    pub valid : IsValid r
    pub holds : span r.buffer r.capacity r.head r.len ≡ map some xs

  pub length-Represents : (r : RingBuffer T) (xs : List T) → Represents r xs → length xs ≡ r.len
  length-Represents r xs rep =
      sym (length-map-some xs)
      ∙ ap length (sym rep.holds)
      ∙ length-span r.buffer r.capacity r.head r.len

  map-some-injective : (xs ys : List T) → map {B = Option T} some xs ≡ map some ys → xs ≡ ys
  map-some-injective [] [] e = refl
  map-some-injective [] (y ∷ ys) e = cc
  map-some-injective (x ∷ xs) [] e = cc
  map-some-injective (x ∷ xs) (y ∷ ys) e = ap₂ ◌∷◌ (cc e) (map-some-injective xs ys (cc e))

  -- A buffer holds one queue of values.
  pub Represents-unique :
      (r : RingBuffer T) (xs ys : List T) → Represents r xs → Represents r ys → xs ≡ ys
  Represents-unique r xs ys p q = map-some-injective xs ys (sym p.holds ∙ q.holds)

  pub new-Represents : (n : ℕ) → 0 < n → n ≤ 2 ^ 63 → Represents (new n) []
  unfolding new
  new-Represents n p q = record { valid = new-IsValid n p q; holds = refl }

  push-full : (r : RingBuffer T) (v : T) → r.len ≡ r.capacity → push r v ≡ (false, r)
  unfolding push
  push-full r v e = rw ((==_iff r.len r.capacity).1 e)

  push-room :
      (r : RingBuffer T) (v : T)
      → IsValid r
      → r.len ≢ r.capacity
      → push r v ≡ (
        true,
        record r {
          buffer = set r.buffer ((r.head + r.len) % r.capacity) (some v);
          len = r.len + 1;
        },
      )
  unfolding push
  push-room r v ok ne =
      let index : add_usize r.head r.len ≡ r.head + r.len = omega arith in
      let count : add_usize r.len 1 ≡ r.len + 1 = omega arith in
      rw (==_ne r.len r.capacity ne, index, count)

  span-push :
      (r : RingBuffer T) (v : T)
      → IsValid r
      → r.len < r.capacity
      → span (set r.buffer ((r.head + r.len) % r.capacity) (some v)) r.capacity r.head (r.len + 1)
        ≡ span r.buffer r.capacity r.head r.len ++ some v ∷ []
  span-push r v ok room =
      let i = (r.head + r.len) % r.capacity in
      let b = set r.buffer i (some v) in
      (let more : r.len + 1 ≡ suc r.len = omega arith in ap (span b r.capacity r.head) more)
      ∙ span-snoc b r.capacity r.head r.len
      ∙ ap₂ (λ xs x. xs ++ x ∷ [])
          (span-set r.buffer r.capacity r.len r.head i (some v) (λ k l. turn ok.head_in l room))
          (get_or-set_self r.buffer i (some v) none (omega arith))

  -- `push` answers as the bounded queue does, and leaves the buffer holding the queue's values.
  pub push_refines :
      (r : RingBuffer T) (xs : List T) (v : T)
      → Represents r xs
      → ((push r v).0 ≡ (Fifo.push r.capacity xs v).0)
        × Represents (push r v).1 (Fifo.push r.capacity xs v).1
        × ((push r v).1.capacity ≡ r.capacity)
  unfolding Fifo.push
  push_refines r xs v rep = elim (ℕ_discrete r.len r.capacity) [
    | yes e ↦
        rw ((==_iff (length xs) r.capacity).1 (length-Represents r xs rep ∙ e), push-full r v e)
          (refl, rep, refl)
    | no ne ↦
        rw
          (
            ==_ne (length xs) r.capacity (λ e. ne (sym (length-Represents r xs rep) ∙ e)),
            push-room r v rep.valid ne,
          )
          (
            refl,
            record {
              valid =
                  subst IsValid (ap (λ p. p.1) (push-room r v rep.valid ne))
                    (push-IsValid r v rep.valid);
              holds =
                  span-push r v rep.valid (omega (arith, rep.valid))
                  ∙ ap (λ l. l ++ some v ∷ []) rep.holds
                  ∙ sym (map-append some xs (v ∷ []));
            },
            refl,
          )
  ]

  pop-empty : (r : RingBuffer T) → r.len ≡ 0 → pop r ≡ (none, r)
  unfolding pop
  pop-empty r e = rw ((==_iff r.len 0).1 e)

  pop-some :
      (r : RingBuffer T)
      → IsValid r
      → r.len ≢ 0
      → pop r ≡ (
        get_or r.buffer r.head none,
        record r {
          buffer = set r.buffer r.head none;
          head = (r.head + 1) % r.capacity;
          len = r.len - 1;
        },
      )
  unfolding pop
  pop-some r ok ne =
      let next : add_usize r.head 1 ≡ r.head + 1 = omega arith in rw (==_ne r.len 0 ne, next)

  span-pop :
      (r : RingBuffer T)
      → IsValid r
      → r.len ≢ 0
      → span r.buffer r.capacity r.head r.len
        ≡ get_or r.buffer r.head none
          ∷ span (set r.buffer r.head none) r.capacity ((r.head + 1) % r.capacity) (r.len - 1)
  span-pop r ok ne =
      let c = r.capacity in
      let split : r.len ≡ suc (r.len - 1) = omega arith in
      ap (span r.buffer c r.head) split
      ∙ ap₂ ◌∷◌ (ap (λ i. get_or r.buffer i none) (mod-eq_of_lt ok.head_in)) (
          sym (span-set r.buffer c (r.len - 1) (r.head + 1) r.head none (apart ok ne))
          ∙ span-cong (set r.buffer r.head none) c (r.len - 1) (r.head + 1) ((r.head + 1) % c)
              (sym (mod-mod (r.head + 1) c)))
    where
      apart :
          IsValid r → r.len ≢ 0 → (k : ℕ) → k < r.len - 1 → (r.head + 1 + k) % r.capacity ≢ r.head
      apart ok ne k l e =
          turn {c = r.capacity} {h = r.head} {k = 0} {n = suc k} ok.head_in (omega arith)
            (omega (arith, ok))
            (ap (λ t. t % r.capacity) (omega arith)
              ∙ mod-eq_of_lt ok.head_in
              ∙ sym e
              ∙ ap (λ t. t % r.capacity) (omega arith))

  -- `pop` answers as the queue does, and leaves the buffer holding the rest.
  pub pop_refines :
      (r : RingBuffer T) (xs : List T)
      → Represents r xs
      → ((pop r).0 ≡ (Fifo.pop xs).0)
        × Represents (pop r).1 (Fifo.pop xs).1
        × ((pop r).1.capacity ≡ r.capacity)
  unfolding Fifo.pop
  pop_refines r [] rep = rw (pop-empty r (sym (length-Represents r [] rep))) (refl, rep, refl)
  pop_refines r (x ∷ xs) rep =
      let ne : r.len ≢ 0 = omega (arith, length-Represents r (x ∷ xs) rep) in
      let e = sym (span-pop r rep.valid ne) ∙ rep.holds in
      rw (pop-some r rep.valid ne) (
        cc e,
        record {
          valid = subst IsValid (ap (λ p. p.1) (pop-some r rep.valid ne)) (pop-IsValid r rep.valid);
          holds = cc e;
        },
        refl,
      )

  -- The same, split by the case that the queue is in.
  pub push_with_room :
      (r : RingBuffer T) (xs : List T) (v : T)
      → Represents r xs
      → length xs ≢ r.capacity
      → ((push r v).0 ≡ true)
        × Represents (push r v).1 (xs ++ v ∷ [])
        × ((push r v).1.capacity ≡ r.capacity)
  push_with_room r xs v rep room =
      let e : Fifo.push r.capacity xs v ≡ (true, xs ++ v ∷ []) =
        unfold Fifo.push in rw (==_ne (length xs) r.capacity room) in
      rw e at (push_refines r xs v rep)

  pub push_when_full :
      (r : RingBuffer T) (xs : List T) (v : T)
      → Represents r xs
      → length xs ≡ r.capacity
      → push r v ≡ (false, r)
  push_when_full r xs v rep full = push-full r v (sym (length-Represents r xs rep) ∙ full)

  pub pop_front :
      (r : RingBuffer T) (x : T) (xs : List T)
      → Represents r (x ∷ xs)
      → ((pop r).0 ≡ some x)
        × Represents (pop r).1 xs
        × ((pop r).1.capacity ≡ r.capacity)
        × (is_empty (pop r).1 ≡ (length xs == 0))
  unfolding Fifo.pop is_empty
  pop_front r x xs rep =
      let (answer, rest, cap) = pop_refines r (x ∷ xs) rep in
      (answer, rest, cap, ap (λ k. k == 0) (sym (length-Represents (pop r).1 xs rest)))

  -- What a client sees of a sequence of calls on the buffer.
  unfoldable pub run : RingBuffer T → List (Op T) → List (Reply T)
  run r [] = []
  run r (put v ∷ ops) = let (done, r') = push r v in pushed done ∷ run r' ops
  run r (get ∷ ops) = let (out, r') = pop r in popped out ∷ run r' ops

  -- No sequence of calls tells a valid buffer from the bounded queue of its values.
  pub run_refines :
      (ops : List (Op T)) (r : RingBuffer T) (xs : List T)
      → Represents r xs
      → run r ops ≡ Fifo.run r.capacity xs ops
  unfolding run Fifo.run
  run_refines [] r xs rep = refl
  run_refines (put v ∷ ops) r xs rep =
      let (answer, next, cap) = push_refines r xs v rep in
      ap₂ (λ d l. pushed d ∷ l) answer
        (run_refines ops (push r v).1 (Fifo.push r.capacity xs v).1 next
          ∙ ap (λ c. Fifo.run c (Fifo.push r.capacity xs v).1 ops) cap)
  run_refines (get ∷ ops) r xs rep =
      let (answer, next, cap) = pop_refines r xs rep in
      ap₂ (λ d l. popped d ∷ l) answer
        (run_refines ops (pop r).1 (Fifo.pop xs).1 next
          ∙ ap (λ c. Fifo.run c (Fifo.pop xs).1 ops) cap)
