-- ===== src/Task/EpQueue/Order.antt =====
-- The endpoint queue keeps its threads in order of arrival.
use mi_dev_integral_rel.Base.{
  ℕ, ◌≡◌, ◌≢◌, refl, List, [], ◌∷◌, ◌++◌, arith, ◌==◌, ◌∉◌, update, has-append, if◌then◌else◌,
}
use mi_dev_integral_rel.Cmd.{ok}
use mi_dev_integral_rel.Cmd.Returns.{Returns, returns}
use mi_dev_integral_rel.Links.Lists.{IsList, splice, remove, head-tail, around}
use mi_dev_integral_rel.Links.Relink.{relink, last-eq_zero, first-eq_zero}
use mi_dev_integral_rel.Task.{TcbQueue, Tasks}
use mi_dev_integral_rel.Task.EpQueue.{ep_append, ep_dequeue}

-- The queue holds the threads `xs`, in order.
abbrev pub IsQueue : Tasks → TcbQueue → List ℕ → Type 0
IsQueue k q xs = IsList k.ep_next k.ep_prev q.head xs q.tail

-- Only the endpoint links of the threads `xs` may differ.
pub record SameButLinks (xs : List ℕ) (k k' : Tasks) : Type 0 where
  pub nexts : (x : ℕ) → x ∉ xs → k'.ep_next x ≡ k.ep_next x
  pub prevs : (x : ℕ) → x ∉ xs → k'.ep_prev x ≡ k.ep_prev x
  pub rest : record k' { ep_next = k.ep_next; ep_prev = k.ep_prev } ≡ k

module _ (k : Tasks) (q : TcbQueue) (t : ℕ) where
  -- Memory and queue after `t` is appended.
  abbrev pub appended : Tasks
  appended = record k {
    ep_next = update (relink k.ep_next q.tail t) t 0;
    ep_prev = update k.ep_prev t q.tail;
  }

  abbrev pub append_queue : TcbQueue
  append_queue = record { head = if q.tail == 0 then t else q.head; tail = t }

  abbrev pub dequeued : Tasks
  dequeued = record k {
    ep_next = relink k.ep_next (k.ep_prev t) (k.ep_next t);
    ep_prev = relink k.ep_prev (k.ep_next t) (k.ep_prev t);
  }

  abbrev pub dequeue_queue : TcbQueue
  dequeue_queue = record {
    head = if k.ep_prev t == 0 then k.ep_next t else q.head;
    tail = if k.ep_next t == 0 then k.ep_prev t else q.tail;
  }

  module _ (xs : List ℕ) (is : IsQueue k q xs) where
    appended-IsQueue : t ≢ 0 → t ∉ xs → IsQueue appended append_queue (xs ++ t ∷ [])
    appended-IsQueue ne out =
        splice k.ep_next k.ep_prev q.head xs q.tail 0 [] q.tail 0 q.tail is.seg (refl, refl)
          is.distinct tt (λ x i. refl) t appended.ep_next appended.ep_prev ne out refl
          (λ x i. ground arith) (λ x i. ground arith) (λ x i. absurd (cc)) (λ x i. absurd (cc))
          (ground arith) (ground arith)

    pub append_run : ep_append q t k ≡ ok append_queue appended
    unfolding ep_append
    append_run = ground (arith, head-tail k.ep_next k.ep_prev q.head xs q.tail is)

  pub dequeue_run : ep_dequeue q t k ≡ ok dequeue_queue dequeued
  unfolding ep_dequeue
  dequeue_run = ground arith

module _ (k : Tasks) (q : TcbQueue) (t : ℕ) where
  -- On the queue of `xs`, appending a thread that is not in it returns, without a panic, the queue
  -- of `xs` with the thread at its end, and changes only the endpoint links of these threads.
  pub ep_append-snoc :
      (xs : List ℕ)
      → IsQueue k q xs
      → t ≢ 0
      → t ∉ xs
      → Returns
          (λ q' k'. IsQueue k' q' (xs ++ t ∷ []) × SameButLinks (t ∷ xs) k k')
          (ep_append q t k)
  ep_append-snoc xs is ne out = rw (append_run k q t xs is) (
      returns (
        appended-IsQueue k q t xs is ne out,
        record {
          nexts = λ x o. ground (arith, last-eq_zero k.ep_next k.ep_prev q.head xs q.tail 0 is.seg);
          prevs = λ x o. ground arith;
          rest = refl;
        },
      ))

  -- Dequeuing any thread of a queue returns the queue of the other threads in their order, and
  -- changes only their endpoint links.
  pub ep_dequeue-remove :
      (xs ys : List ℕ)
      → IsQueue k q (xs ++ t ∷ ys)
      → Returns
          (λ q' k'. IsQueue k' q' (xs ++ ys) × SameButLinks (xs ++ ys) k k')
          (ep_dequeue q t k)
  ep_dequeue-remove xs ys is =
      let c = around k.ep_next k.ep_prev q.head t xs ys q.tail is in
      rw (dequeue_run k q t) (
        returns (
          remove k.ep_next k.ep_prev q.head t xs ys q.tail is,
          record {
            nexts = λ x o. ground (
              arith,
              has-append x xs ys,
              last-eq_zero k.ep_next k.ep_prev q.head xs (k.ep_prev t) t c.left,
            );
            prevs = λ x o. ground (
              arith,
              has-append x xs ys,
              first-eq_zero k.ep_next k.ep_prev t (k.ep_next t) ys q.tail c.right,
            );
            rest = refl;
          },
        ))
