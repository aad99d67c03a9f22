-- ===== src/Storage/Accepted.antt =====
-- internal/gateway/persistence.go with internal/persistence/postgres/store.go: the records that the gateway
-- makes, in the checks of the store.
use mathlib.Core.Path.{subst}
use route_forge.Base.{
  ℕ, ◌+◌, ◌≤◌, ◌≡◌, refl, sym, ◌∙◌, ap, Bool, true, false, Option, none, some, List, [], ◌∷◌, ◌++◌,
  length, length-append, length-take, arith,
}
use route_forge.Base.Result.{ok}
use route_forge.Accounting.Price.{is_empty}
use route_forge.Outcome.{Error}
use route_forge.History.{
  RequestHistory, begin_request_history, new_attempt, start_attempt, finish_attempt, cache_hit,
  finish,
}
use route_forge.Storage.Batch.{Storing, finish-batch}
use route_forge.Storage.Attempts.{
  Tried, try_all, Storable, AllReady, Ready, AllReady-snoc, ended, ended-Ready, take-drop-last,
  set-last, within-take,
}
use route_forge.Storage.{within, Statement, insert_request, record_batch}

-- What one attempt makes of the attempts.
pub try-attempts :
    (t : Tried) (h : RequestHistory)
    → let n = length h.entry.attempts in
      let h' =
        finish_attempt n t.outcome t.duration t.ttfc t.usage t.cost t.finished
          (start_attempt t.name t.model t.started h) in
      (h'.entry.attempts ≡ h.entry.attempts ++ (ended t n ∷ []))
      × (h'.entry.request_id ≡ h.entry.request_id)
      × (h'.entry.routing_policy ≡ h.entry.routing_policy)
      × (h'.entry.logical_model ≡ h.entry.logical_model)
unfolding finish_attempt start_attempt ended
try-attempts t h =
    let n = length h.entry.attempts in
    let b = new_attempt t.name t.model n t.started in
    rw (take-drop-last h.entry.attempts b, finish_attempt)
      (set-last h.entry.attempts b (ended t n), refl, refl, refl)

abbrev pub tried : Tried → RequestHistory → RequestHistory
tried t h =
    finish_attempt (length h.entry.attempts) t.outcome t.duration t.ttfc t.usage t.cost t.finished
      (start_attempt t.name t.model t.started h)

try_all-Storing :
    (ts : List Tried) (h : RequestHistory) → Storable ts → Storing h → Storing (try_all ts h)
unfolding try_all
try_all-Storing [] h fits s = s
try_all-Storing (t ∷ ts) h ((name, model, usage, cost), fits) s =
    let (attempts, id, policy, logical) = try-attempts t h in
    let n = length h.entry.attempts in
    let ready : Ready (0 + n) (ended t n) =
      subst (λ j. Ready j (ended t n)) (omega arith) (ended-Ready t n name model usage cost) in
    try_all-Storing ts (tried t h) fits (record {
      id = subst (λ x. within 64 x ≡ true) (sym id) s.id;
      policy = subst (λ x. within 32 x ≡ true) (sym policy) s.policy;
      model = subst (λ x. length x ≤ 256) (sym logical) s.model;
      attempts =
          subst (AllReady 0) (sym attempts)
            (AllReady-snoc 0 h.entry.attempts (ended t n) s.attempts ready);
    })

length-try_all :
    (ts : List Tried) (h : RequestHistory)
    → length (try_all ts h).entry.attempts ≡ length h.entry.attempts + length ts
unfolding try_all
length-try_all [] h = omega arith
length-try_all (t ∷ ts) h =
    let n = length h.entry.attempts in
    let (attempts, id, policy, logical) = try-attempts t h in
    omega (
      arith,
      length-try_all ts (tried t h),
      ap length attempts,
      length-append h.entry.attempts (ended t n ∷ []),
    )

unfoldable pub hit_by : Option (List ℕ) → RequestHistory → RequestHistory
unfolding cache_hit
hit_by none h = h
hit_by (some name) h = cache_hit name h

hit_by-Storing : (hit : Option (List ℕ)) (h : RequestHistory) → Storing h → Storing (hit_by hit h)
unfolding hit_by cache_hit
hit_by-Storing none h s = s
hit_by-Storing (some name) h s = record {
  id = s.id;
  policy = s.policy;
  model = s.model;
  attempts = s.attempts;
}

length-hit_by :
    (hit : Option (List ℕ)) (h : RequestHistory)
    → length (hit_by hit h).entry.attempts ≡ length h.entry.attempts
unfolding hit_by cache_hit
length-hit_by none h = refl
length-hit_by (some name) h = refl

begin-Storing :
    (id : List ℕ) (now : ℕ) (policy : List ℕ) (streaming : Bool) (model : List ℕ)
    → within 64 id ≡ true
    → is_empty policy ≡ false
    → Storing (begin_request_history id now policy streaming model)
unfolding begin_request_history
begin-Storing id now policy streaming model identified named = record {
  id = identified;
  policy = within-take 32 policy (omega arith) named;
  model = omega (arith, length-take 256 model);
  attempts = tt;
}

length-begin :
    (id : List ℕ) (now : ℕ) (policy : List ℕ) (streaming : Bool) (model : List ℕ) (n : ℕ)
    → length (begin_request_history id now policy streaming model).entry.attempts + n ≡ n
unfolding begin_request_history
length-begin id now policy streaming model n = omega arith

-- The checks of `recordBatch` refuse no record that the
-- gateway makes of a request, however it ends and whatever the clock does, if its identifier has 1 to 64
-- bytes, the policy, the providers and the models have names and each count and cost is below 2^63: the
-- batch has a statement for the request and one for each attempt.
pub record_batch-accepts :
    (id : List ℕ) (now : ℕ) (policy : List ℕ) (streaming : Bool) (model : List ℕ) (ts : List Tried)
    (hit : Option (List ℕ)) (ctx_done : Bool) (e : Option Error) (end_time : ℕ)
    → within 64 id ≡ true
    → is_empty policy ≡ false
    → Storable ts
    → let h = hit_by hit (try_all ts (begin_request_history id now policy streaming model)) in
      let r = finish ctx_done e end_time h in
      (rows : List Statement) × (record_batch r ≡ ok (insert_request r ∷ rows))
      × (length rows ≡ length ts)
record_batch-accepts id now policy streaming model ts hit ctx_done e end_time identified named
      fits =
    let h0 = begin_request_history id now policy streaming model in
    let h = hit_by hit (try_all ts h0) in
    let begun = begin-Storing id now policy streaming model identified named in
    let storing = hit_by-Storing hit (try_all ts h0) (try_all-Storing ts h0 fits begun) in
    let (rows, made, size) = finish-batch ctx_done e end_time h storing in
    (
      rows,
      made,
      size
          ∙ length-hit_by hit (try_all ts h0)
          ∙ length-try_all ts h0
          ∙ length-begin id now policy streaming model (length ts),
    )
