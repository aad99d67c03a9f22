-- ===== src/Storage/Binding.antt =====
-- internal/persistence/postgres/reader.go: the parameters of the statement are those that are bound.
use Prim.Native.String.{String}
use mathlib.Core.Path.{subst}
use mathlib.Core.List.{append-nil, append_assoc}
use route_forge.Base.{
  ℕ, ◌+◌, ◌≤◌, ◌≡◌, refl, sym, ◌∙◌, ap, Bool, ◌&&◌, Option, none, some, List, [], ◌∷◌, ◌++◌, length,
  length-append, if-holds, arith, leb, ltb, ◌==◌, if◌then◌else◌, ◌||◌,
}
use route_forge.Base.Result.{Result, ok, err}
use route_forge.Accounting.Price.{is_empty}
use route_forge.Storage.Query.{
  Position, ListQuery, Value, time, number, text, flag, Piece, sql, parameter, Filters, no_filters,
  compare_with, filter_before, filter_provider, filter_text, filter_flag, filter_time, filters,
  join, where_clause, statement_of, list_sql, max_page_size, QueryError, invalid_page_size,
}

-- Reads a statement whose parameters up to `m` are known: each parameter is a known one or the next,
-- and the result is the last.
unfoldable pub reads : ℕ → List Piece → Option ℕ
reads m [] = some m
reads m (sql s ∷ pieces) = reads m pieces
reads m (parameter k ∷ pieces) =
    let next = reads (m + 1) pieces in
    let known = reads m pieces in
    if k == m + 1 then next else if leb 1 k && leb k m then known else none

reads-append :
    (m n : ℕ) (xs ys : List Piece) → reads m xs ≡ some n → reads m (xs ++ ys) ≡ reads n ys
unfolding reads
reads-append m n [] ys e = ground arith
reads-append m n (sql s ∷ xs) ys e = reads-append m n xs ys e
reads-append m n (parameter k ∷ xs) ys e =
    ground (arith, reads-append (m + 1) n xs ys, reads-append m n xs ys)

abbrev flatten : List (List Piece) → List Piece
flatten [] = []
flatten (c ∷ cs) = c ++ flatten cs

flatten-snoc :
    (cs : List (List Piece)) (c : List Piece) → flatten (cs ++ (c ∷ [])) ≡ flatten cs ++ (c ++ [])
flatten-snoc [] c = refl
flatten-snoc (d ∷ cs) c =
    ap (λ l. d ++ l) (flatten-snoc cs c) ∙ sym (append_assoc d (flatten cs) (c ++ []))

-- The parameters of the conditions are the arguments so far.
abbrev Binds : Filters → Type 0
Binds f = reads 0 (flatten f.conditions) ≡ some (length f.args)

-- One more condition, which uses its new arguments.
extend :
    (f : Filters) (c : List Piece) (values : List Value)
    → Binds f
    → reads (length f.args) (c ++ []) ≡ some (length f.args + length values)
    → Binds (record { conditions = f.conditions ++ (c ∷ []); args = f.args ++ values })
extend f c values b uses =
    ap (reads 0) (flatten-snoc f.conditions c)
    ∙ reads-append 0 (length f.args) (flatten f.conditions) (c ++ []) b
    ∙ uses
    ∙ ap some (sym (length-append f.args values))

compare_with-Binds :
    (before : String) (value : Value) (f : Filters) → Binds f → Binds (compare_with before value f)
unfolding compare_with reads
compare_with-Binds before value f b =
    extend f (sql before ∷ parameter (length f.args + 1) ∷ []) (value ∷ []) b (ground arith)

filter_before-Binds : (p : Option Position) (f : Filters) → Binds f → Binds (filter_before p f)
unfolding filter_before reads
filter_before-Binds none f b = b
filter_before-Binds (some p) f b =
    extend f
      (sql "(started_at, request_id) < ("
        ∷ parameter (length f.args + 1)
        ∷ sql ", "
        ∷ parameter (length f.args + 2)
        ∷ sql ")"
        ∷ [])
      (time p.started_at ∷ text p.request_id ∷ []) b (ground arith)

filter_provider-Binds : (p : List ℕ) (f : Filters) → Binds f → Binds (filter_provider p f)
unfolding filter_provider reads
filter_provider-Binds p f b =
    if-holds Binds (is_empty p) f _ (λ e. b)
      (λ e.
        extend f
          (sql "(initial_provider = "
            ∷ parameter (length f.args + 1)
            ∷ sql " OR final_provider = "
            ∷ parameter (length f.args + 1)
            ∷ sql ")"
            ∷ [])
          (text p ∷ []) b (ground arith))

filter_text-Binds :
    (before : String) (value : List ℕ) (f : Filters) → Binds f → Binds (filter_text before value f)
unfolding filter_text
filter_text-Binds before value f b =
    if-holds Binds (is_empty value) f (compare_with before (text value) f) (λ e. b)
      (λ e. compare_with-Binds before (text value) f b)

filter_flag-Binds :
    (before : String) (value : Option Bool) (f : Filters)
    → Binds f
    → Binds (filter_flag before value f)
unfolding filter_flag
filter_flag-Binds before none f b = b
filter_flag-Binds before (some v) f b = compare_with-Binds before (flag v) f b

filter_time-Binds :
    (before : String) (value : Option ℕ) (f : Filters)
    → Binds f
    → Binds (filter_time before value f)
unfolding filter_time
filter_time-Binds before none f b = b
filter_time-Binds before (some v) f b = compare_with-Binds before (time v) f b

filters-Binds : (q : ListQuery) → Binds (filters q)
unfolding filters reads
filters-Binds q = filter_time-Binds _ q.started_before _ (
    filter_time-Binds _ q.started_after _ (
      filter_flag-Binds _ q.cache_hit _ (
        filter_flag-Binds _ q.streaming _ (
          filter_text-Binds _ q.outcome _ (
            filter_text-Binds _ q.routing_policy _ (
              filter_provider-Binds q.provider _
                (filter_before-Binds q.before no_filters refl)))))))

reads-sql : (m : ℕ) (s : String) (pieces : List Piece) → reads m (sql s ∷ pieces) ≡ reads m pieces
unfolding reads
reads-sql m s pieces = refl

reads-cong :
    (m : ℕ) (c xs ys : List Piece)
    → ((k : ℕ) → reads k xs ≡ reads k ys)
    → reads m (c ++ xs) ≡ reads m (c ++ ys)
unfolding reads
reads-cong m [] xs ys e = e m
reads-cong m (sql s ∷ c) xs ys e = reads-cong m c xs ys e
reads-cong m (parameter k ∷ c) xs ys e =
    rw (reads-cong (m + 1) c xs ys e, reads-cong m c xs ys e) refl

-- `AND` brings no parameter.
reads-join : (cs : List (List Piece)) (m : ℕ) → reads m (join cs) ≡ reads m (flatten cs)
unfolding join
reads-join [] m = refl
reads-join (c ∷ []) m = ap (reads m) (sym (append-nil c))
reads-join (c ∷ d ∷ cs) m =
    reads-cong m c (sql " AND " ∷ join (d ∷ cs)) (flatten (d ∷ cs))
      (λ k. reads-sql k " AND " (join (d ∷ cs)) ∙ reads-join (d ∷ cs) k)

reads-where :
    (n : ℕ) (cs : List (List Piece))
    → reads 0 (flatten cs) ≡ some n
    → reads 0 (where_clause cs) ≡ some n
unfolding where_clause
reads-where n [] e = e
reads-where n (c ∷ cs) e = reads-sql 0 " WHERE " (join (c ∷ cs)) ∙ reads-join (c ∷ cs) 0 ∙ e

reads-limit : (n : ℕ) (s : String) → reads n (sql s ∷ parameter (n + 1) ∷ []) ≡ some (n + 1)
unfolding reads
reads-limit n s = ground arith

statement-reads :
    (limit : ℕ) (f : Filters)
    → Binds f
    → reads 0 (statement_of limit f).0 ≡ some (length (statement_of limit f).1)
unfolding reads
statement-reads limit f b =
    reads-append 0 (length f.args) (where_clause f.conditions) _
      (reads-where (length f.args) f.conditions b)
    ∙ reads-limit (length f.args) " ORDER BY started_at DESC, request_id DESC LIMIT "
    ∙ ap some (sym (length-append f.args (number (limit + 1) ∷ [])))

in_page :
    (limit : ℕ) (r x : List Piece × List Value)
    → ◌≡◌ {A = Result QueryError (List Piece × List Value)}
        (if ltb limit 1 || ltb max_page_size limit then err invalid_page_size else ok r)
        (ok x)
    → (r ≡ x) × (1 ≤ limit) × (limit ≤ max_page_size)
in_page limit r x e = ground arith

-- The statement that lists the history has the parameters `$1`, `$2`, ... first in this order, each is
-- bound to one argument, and no argument is left over; it asks for one row more than the page, which
-- has 1 to 100 rows.
pub list_sql-reads :
    (q : ListQuery) (made : List Piece × List Value)
    → list_sql q ≡ ok made
    → (reads 0 made.0 ≡ some (length made.1))
      × (made.1 ≡ (filters q).args ++ (number (q.limit + 1) ∷ []))
      × (1 ≤ q.limit)
      × (q.limit ≤ max_page_size)
unfolding list_sql
list_sql-reads q made e =
    let (same_statement, low, high) = in_page q.limit (statement_of q.limit (filters q)) made e in
    subst
      (λ m.
        (reads 0 m.0 ≡ some (length m.1))
        × (m.1 ≡ (filters q).args ++ (number (q.limit + 1) ∷ []))
        × (1 ≤ q.limit)
        × (q.limit ≤ max_page_size))
      same_statement (statement-reads q.limit (filters q) (filters-Binds q), refl, low, high)
