-- ===== src/Storage/Query.antt =====
-- internal/persistence/postgres/reader.go: the statement that lists the history.
use Prim.Native.String.{String}
use route_forge.Base.{
  ℕ, ◌+◌, Bool, ◌||◌, Option, none, some, List, [], ◌∷◌, ◌++◌, length, ltb, if◌then◌else◌,
}
use route_forge.Base.Result.{Result, ok, err}
use route_forge.Accounting.Price.{is_empty}

pub record Position : Type 0 where
  pub started_at : ℕ
  pub request_id : List ℕ

pub record ListQuery : Type 0 where
  pub limit : ℕ
  pub before : Option Position
  pub provider : List ℕ
  pub routing_policy : List ℕ
  pub outcome : List ℕ
  pub streaming : Option Bool
  pub cache_hit : Option Bool
  pub started_after : Option ℕ
  pub started_before : Option ℕ

-- A value that is bound to a parameter.
pub data Value : Type 0 where
  time number : ℕ → Value
  text : List ℕ → Value
  flag : Bool → Value

-- A piece of a statement: text, or `$n`.
pub data Piece : Type 0 where
  sql : String → Piece
  parameter : ℕ → Piece

-- `conditions` and `args`.
pub record Filters : Type 0 where
  pub conditions : List (List Piece)
  pub args : List Value

abbrev pub no_filters : Filters
no_filters = record { conditions = []; args = [] }

-- A condition `before $n`, with `n` the number of the arguments.
unfoldable pub compare_with : String → Value → Filters → Filters
compare_with before value f = record {
  conditions = f.conditions ++ ((sql before ∷ parameter (length f.args + 1) ∷ []) ∷ []);
  args = f.args ++ (value ∷ []);
}

unfoldable pub filter_before : Option Position → Filters → Filters
filter_before none f = f
filter_before (some p) f =
    let n = length f.args in
    record {
      conditions =
          f.conditions
          ++ ((sql "(started_at, request_id) < ("
                ∷ parameter (n + 1)
                ∷ sql ", "
                ∷ parameter (n + 2)
                ∷ sql ")"
                ∷ [])
              ∷ []);
      args = f.args ++ (time p.started_at ∷ text p.request_id ∷ []);
    }

-- The parameter of a provider stands twice.
unfoldable pub filter_provider : List ℕ → Filters → Filters
filter_provider provider f =
    let n = length f.args + 1 in
    if is_empty provider then f else record {
      conditions =
          f.conditions
          ++ ((sql "(initial_provider = "
                ∷ parameter n
                ∷ sql " OR final_provider = "
                ∷ parameter n
                ∷ sql ")"
                ∷ [])
              ∷ []);
      args = f.args ++ (text provider ∷ []);
    }

unfoldable pub filter_text : String → List ℕ → Filters → Filters
unfolding compare_with
filter_text before value f = if is_empty value then f else compare_with before (text value) f

unfoldable pub filter_flag : String → Option Bool → Filters → Filters
unfolding compare_with
filter_flag before none f = f
filter_flag before (some b) f = compare_with before (flag b) f

unfoldable pub filter_time : String → Option ℕ → Filters → Filters
unfolding compare_with
filter_time before none f = f
filter_time before (some t) f = compare_with before (time t) f

unfoldable pub filters : ListQuery → Filters
unfolding filter_before filter_provider filter_text filter_flag filter_time
filters q =
    let before = filter_before q.before no_filters in
    let provider = filter_provider q.provider before in
    let policy = filter_text "routing_policy = " q.routing_policy provider in
    let outcome = filter_text "outcome = " q.outcome policy in
    let streaming = filter_flag "streaming = " q.streaming outcome in
    let cache_hit = filter_flag "cache_hit = " q.cache_hit streaming in
    let after = filter_time "started_at > " q.started_after cache_hit in
    filter_time "started_at < " q.started_before after

-- `strings.Join(conditions, " AND ")`.
unfoldable pub join : List (List Piece) → List Piece
join [] = []
join (c ∷ []) = c
join (c ∷ d ∷ cs) = c ++ (sql " AND " ∷ join (d ∷ cs))

unfoldable pub where_clause : List (List Piece) → List Piece
unfolding join
where_clause [] = []
where_clause (c ∷ cs) = sql " WHERE " ∷ join (c ∷ cs)

abbrev pub max_page_size : ℕ
max_page_size = 100

pub data QueryError : Type 0 where
  invalid_page_size : QueryError

-- `SELECT` with the columns of a request.
abbrev pub select : Piece
select =
    sql
      "SELECT request_id, started_at, completed_at, routing_policy, streaming, logical_model, initial_provider, final_provider, outcome, attempt_count, fallback_count, request_duration_us, cache_hit FROM routeforge_requests"

abbrev pub statement_of : ℕ → Filters → List Piece × List Value
statement_of limit f = (
  select
      ∷ (where_clause f.conditions
          ++ (sql " ORDER BY started_at DESC, request_id DESC LIMIT "
              ∷ parameter (length f.args + 1)
              ∷ [])),
  f.args ++ (number (limit + 1) ∷ []),
)

-- `listSQL`.
unfoldable pub list_sql : ListQuery → Result QueryError (List Piece × List Value)
unfolding filters where_clause
list_sql q =
    if ltb q.limit 1 || ltb max_page_size q.limit
    then err invalid_page_size
    else ok (statement_of q.limit (filters q))
