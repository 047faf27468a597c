-- ===== src/Feedhandler/Posting.antt =====
-- `submit_recv` and the completions of crates/feedhandler/src/main.rs: receives that complete are posted
-- again.
use mathlib.Core.List.{append_assoc, append-nil}
use dummy_benchmark.Base.{
  ℕ, ◌<◌, ◌≡◌, refl, sym, ap, ◌∙◌, Bool, true, false, List, [], ◌∷◌, ◌++◌, map, arith, Bool-cases,
  inl, inr, All,
}
use dummy_benchmark.Feedhandler.{Completion, on_completion, on_completions}
use dummy_benchmark.Feedhandler.Loop.{
  Uring, queue_full, push, submit, posted, submit_recv, Cqe, goes_on, Handling, post, handle_one,
  handle_done,
}

-- The entries in the order in which the kernel gets them, with those that still wait.
abbrev pub posts : Uring → List ℕ
posts u = u.submitted ++ u.queue

-- Two submits that succeed.
abbrev pub Succeed : List Bool → Type 0
Succeed answers = (rest : List Bool) × (answers ≡ true ∷ true ∷ rest)

submit_recv-full :
    (u : Uring) (ud : ℕ) (answers : List Bool)
    → queue_full u ≡ true
    → submit_recv u ud (true ∷ answers) ≡ submit_recv (submit u) ud answers
unfolding submit_recv
submit_recv-full u ud answers h = ground (arith, h)

submit_recv-room :
    (u : Uring) (ud : ℕ) (answers : List Bool)
    → queue_full u ≡ false
    → submit_recv u ud (true ∷ answers) ≡ posted (submit (push u ud))
unfolding submit_recv
submit_recv-room u ud answers h = ground (arith, h)

queue_full-submit : (u : Uring) → 0 < u.depth → queue_full (submit u) ≡ false
unfolding queue_full submit
queue_full-submit u room = ground arith

-- When its submits succeed, `submit_recv` returns after at most two of them, on a queue that has room
-- for an entry at all: the kernel gets what was waiting, and then the receive.
pub submit_recv-posted :
    (u : Uring) (ud : ℕ) (answers : List Bool)
    → 0 < u.depth
    → Succeed answers
    → submit_recv u ud answers ≡ posted (record u { queue = []; submitted = posts u ++ ud ∷ [] })
unfolding push submit
submit_recv-posted u ud answers room (rest, e) = rw e (elim (Bool-cases (queue_full u)) [
  | inl crowded ↦
      submit_recv-full u ud (true ∷ rest) crowded
      ∙ submit_recv-room (submit u) ud rest (queue_full-submit u room)
  | inr space ↦
      submit_recv-room u ud (true ∷ rest) space
      ∙ ap (λ l. posted (record u { queue = []; submitted = l }))
          (sym (append_assoc u.submitted u.queue (ud ∷ [])))
])

-- The completions of a row of entries, and their user data.
abbrev pub completions_of : List Cqe → List Completion
completions_of qs = map (λ q. q.completion) qs

abbrev pub user_data_of : List Cqe → List ℕ
user_data_of qs = map (λ q. q.user_data) qs

abbrev pub AllSubmit : List Cqe → Type 0
AllSubmit qs = All (λ (q : Cqe). Succeed q.submits) qs

-- What the completions `qs` leave of `h`: the counters and the tick ring of `on_completions`, and each
-- receive posted again.
pub record Reposts (h : Handling) (qs : List Cqe) (h' : Handling) : Type 0 where
  pub counters_are : h'.counters ≡ (on_completions h.counters h.outlet (completions_of qs)).0
  pub outlet_is : h'.outlet ≡ (on_completions h.counters h.outlet (completions_of qs)).1
  pub posts_are : posts h'.uring ≡ posts h.uring ++ user_data_of qs
  pub depth_is : h'.uring.depth ≡ h.uring.depth

handle_one-posted :
    (h : Handling) (q : Cqe)
    → 0 < h.uring.depth
    → Succeed q.submits
    → handle_one h q
      ≡ goes_on (record {
        counters = (on_completion h.counters h.outlet q.completion).0;
        outlet = (on_completion h.counters h.outlet q.completion).1;
        uring = record h.uring { queue = []; submitted = posts h.uring ++ q.user_data ∷ [] };
      })
unfolding handle_one post
handle_one-posted h q room ok = rw (submit_recv-posted h.uring q.user_data q.submits room ok)

-- When all submits succeed, the handling of the completions does not fail or hang.
pub handle_done-Reposts :
    (h : Handling) (qs : List Cqe)
    → 0 < h.uring.depth
    → AllSubmit qs
    → (h' : Handling) × (handle_done h qs ≡ goes_on h') × Reposts h qs h'
unfolding handle_done on_completions
handle_done-Reposts h [] room all = (
  h,
  refl,
  record {
    counters_are = refl;
    outlet_is = refl;
    posts_are = sym (append-nil (posts h.uring));
    depth_is = refl;
  },
)
handle_done-Reposts h (q ∷ qs) room all =
    let (s, out) = on_completion h.counters h.outlet q.completion in
    let u : Uring = record h.uring { queue = []; submitted = posts h.uring ++ q.user_data ∷ [] } in
    let next : Handling = record { counters = s; outlet = out; uring = u } in
    let one : handle_one h q ≡ goes_on next = handle_one-posted h q room all.0 in
    let (h', e, r) = handle_done-Reposts next qs room all.1 in
    (
      h',
      rw one e,
      record {
        counters_are = r.counters_are;
        outlet_is = r.outlet_is;
        posts_are =
            r.posts_are
            ∙ ap (λ l. l ++ user_data_of qs) (append-nil (posts h.uring ++ q.user_data ∷ []))
            ∙ append_assoc (posts h.uring) (q.user_data ∷ []) (user_data_of qs);
        depth_is = r.depth_is;
      },
    )
