-- ===== src/Schedules/Services/Laws.antt =====
-- The calendar structure against the rows that it is built from.
use Prim.Native.String.{String}
use text.Mathlib.Text.{◌==◌}
use mathlib.Core.Path.{subst, ap₂}
use catenary_backend.Common.{
  ℕ, zero, suc, Bool, true, false, not, ◌&&◌, Option, none, some, List, [], ◌∷◌, ◌≡◌, refl, sym, ap,
  ◌∙◌, inl, inr, if◌then◌else◌, any, ◌>>=◌, >>=-eq-some, some-injective, Bool-cases, true_is_false,
  In, ◌⊎◌, filter, map, leb, ==_iff, arith,
}
use catenary_backend.Common as Common
use catenary_backend.Common.Loops.{for_each}
use catenary_backend.Schedules.Feed.{Weekday, mon, tue, wed, thu, fri, sat, sun, Exception, get}
use catenary_backend.Common.Int.{ℤ, pos, negsuc}
use catenary_backend.Schedules.Prune.Tables.{==-true, ==-refl}
use catenary_backend.Schedules.Services.{
  GeneralCalendar, CalendarUnified, CalendarRow, CalendarDateRow, make_weekdays, exception_of,
  insert, insert_exception, get_exception, Calendars, insert_calendars,
  empty_exception_from_calendar_date, put_exception, with_exception, updated_entry, same_weekday,
  add_calendar_date, make_calendar_structure_from_pg_single_chateau, in_general, with_exceptions,
  datetime_in_service,
}

-- Two ids that equal a third are equal.
same_id : (a b c : String) → (a == c) ≡ true → (b == c) ≡ true → (a == b) ≡ true
same_id a b c h k = subst (λ x. (a == x) ≡ true) (==-true a c h ∙ sym (==-true b c k)) (==-refl a)

get-insert :
    (id k : String) (value : CalendarUnified) (table : Calendars)
    → get (insert id value table) k ≡ (if id == k then some value else get table k)
unfolding get insert
get-insert id k value [] = refl
get-insert id k value (entry ∷ table) = elim (Bool-cases (entry.0 == id)) [
  | inl e ↦ rw e (same_head (==-true entry.0 id e))
  | inr e ↦ rw e (other_head e (get-insert id k value table))
]
  where
    same_head :
        entry.0 ≡ id
        → (if id == k then some value else get table k)
          ≡ (if id == k then some value else if entry.0 == k then some entry.1 else get table k)
    same_head q = elim (Bool-cases (id == k)) [
      | inl t ↦ rw t refl
      | inr t ↦ rw t (rw (ap (λ x. x == k) q ∙ t) refl)
    ]

    other_head :
        (entry.0 == id) ≡ false
        → get (insert id value table) k ≡ (if id == k then some value else get table k)
        → (if entry.0 == k then some entry.1 else get (insert id value table) k)
          ≡ (if id == k then some value else if entry.0 == k then some entry.1 else get table k)
    other_head off ih = elim (Bool-cases (entry.0 == k)) [
      | inl t ↦ elim (Bool-cases (id == k)) [
        | inl u ↦ absurd (true_is_false (sym (same_id entry.0 id k t u) ∙ off))
        | inr u ↦ rw t (rw u refl)
      ]
      | inr t ↦ rw t ih
    ]

get_exception-insert_exception :
    (date d : ℕ) (exception : Exception) (table : List (ℕ × Exception))
    → get_exception (insert_exception date exception table) d
      ≡ (if Common.◌==◌ date d then some exception else get_exception table d)
unfolding get_exception insert_exception
get_exception-insert_exception date d exception [] = refl
get_exception-insert_exception date d exception (entry ∷ table) =
    ground (arith, get_exception-insert_exception date d exception table)

if_app :
    {A B : Type 0} (f : A → B) (c : Bool) (x y : A)
    → f (if c then x else y) ≡ (if c then f x else f y)
if_app f true x y = refl
if_app f false x y = refl

-- The calendar and the exception that an entry of the structure holds.
abbrev exceptions_in : Option CalendarUnified → ℕ → Option Exception
exceptions_in s d = s >>= λ service. service.exceptions >>= λ exceptions. get_exception exceptions d

abbrev general_in : Option CalendarUnified → Option GeneralCalendar
general_in s = s >>= λ service. service.general_calendar

-- The last row of the calendar table for the service.
unfoldable pub last_calendar :
    List CalendarRow → String → Option GeneralCalendar → Option GeneralCalendar
last_calendar [] id previous = previous
last_calendar (row ∷ rows) id previous = last_calendar rows id (
    if row.service_id == id
    then some (record {
      days = make_weekdays row;
      start_date = row.gtfs_start_date;
      end_date = row.gtfs_end_date;
    })
    else previous)

-- The last row of the exception table for the service and the date.
unfoldable pub last_exception :
    List CalendarDateRow → String → ℕ → Option Exception → Option Exception
last_exception [] id d previous = previous
last_exception (row ∷ rows) id d previous = last_exception rows id d (
    if row.service_id == id && Common.◌==◌ row.gtfs_date d
    then exception_of row.exception_type
    else previous)

insert_calendars-general :
    (rows : List CalendarRow) (m : Calendars) (id : String)
    → general_in (get (insert_calendars rows m) id) ≡ last_calendar rows id (general_in (get m id))
unfolding insert_calendars last_calendar
insert_calendars-general [] m id = refl
insert_calendars-general (row ∷ rows) m id =
    insert_calendars-general rows _ id
    ∙ ap (last_calendar rows id) (
        ap general_in (get-insert row.service_id id _ m)
        ∙ if_app general_in (row.service_id == id) _ (get m id))

insert_calendars-exceptions :
    (rows : List CalendarRow) (m : Calendars) (id : String) (d : ℕ)
    → exceptions_in (get m id) d ≡ none
    → exceptions_in (get (insert_calendars rows m) id) d ≡ none
unfolding insert_calendars
insert_calendars-exceptions [] m id d h = h
insert_calendars-exceptions (row ∷ rows) m id d h = insert_calendars-exceptions rows _ id d (
    ap (λ s. exceptions_in s d) (get-insert row.service_id id _ m)
    ∙ elim (Bool-cases (row.service_id == id)) [ inl e ↦ rw e refl | inr e ↦ rw e h ])

get_exception-put_exception :
    (date d : ℕ) (e : Exception) (old : Option (List (ℕ × Exception)))
    → get_exception (put_exception date e old) d
      ≡ (if Common.◌==◌ date d then some e else (old >>= λ table. get_exception table d))
unfolding put_exception get_exception
get_exception-put_exception date d e none = refl
get_exception-put_exception date d e (some table) = get_exception-insert_exception date d e table

-- What an exception row makes of the entry of its service.
updated_entry-exceptions :
    (row : CalendarDateRow) (e : Exception) (old : Option CalendarUnified) {new : CalendarUnified}
    → exception_of row.exception_type ≡ some e
    → updated_entry row e old ≡ some new
    → (general_in (some new) ≡ general_in old)
      × ((d : ℕ)
          → exceptions_in (some new) d
            ≡ (if Common.◌==◌ row.gtfs_date d then some e else exceptions_in old d))
unfolding updated_entry empty_exception_from_calendar_date with_exception get_exception
updated_entry-exceptions row e none h u =
    let (e', f, r) = >>=-eq-some (exception_of row.exception_type) _ u in
    let same : e' ≡ e = some-injective (sym f ∙ h) in
    (
      ap general_in (sym r),
      λ d.
          ap (λ s. exceptions_in s d) (sym r)
          ∙ ap (λ x. if Common.◌==◌ row.gtfs_date d then some x else none) same,
    )
updated_entry-exceptions row e (some old) h u = (
  ap general_in (sym u),
  λ d.
      ap (λ s. exceptions_in s d) (sym u)
      ∙ get_exception-put_exception row.gtfs_date d e old.exceptions,
)

-- A row changes the exceptions of its service on its date, and nothing else.
add_calendar_date-entry :
    (row : CalendarDateRow) (m : Calendars) {m' : Calendars}
    → add_calendar_date row m ≡ some m'
    → (id : String) (d : ℕ)
    → (general_in (get m' id) ≡ general_in (get m id))
      × (exceptions_in (get m' id) d ≡ (
          if row.service_id == id && Common.◌==◌ row.gtfs_date d
          then exception_of row.exception_type
          else exceptions_in (get m id) d))
unfolding add_calendar_date
add_calendar_date-entry row m h id d =
    let (e, f, h') = >>=-eq-some (exception_of row.exception_type) _ h in
    let (entry, u, r) = >>=-eq-some (updated_entry row e (get m row.service_id)) _ h' in
    let (same, changed) = updated_entry-exceptions row e (get m row.service_id) f u in
    let after =
      ap (λ t. get t id) (sym (some-injective r)) ∙ get-insert row.service_id id entry m in
    elim (Bool-cases (row.service_id == id)) [
      | inl q ↦
          let own = after ∙ ap (λ c. if c then some entry else get m id) q in
          let its = ap (get m) (==-true row.service_id id q) in
          (
            ap general_in own ∙ (same ∙ ap general_in its),
            ap (λ s. exceptions_in s d) own
                ∙ (changed d
                    ∙ (rw q (
                        ap₂ (λ x y. if Common.◌==◌ row.gtfs_date d then x else y) (sym f)
                          (ap (λ s. exceptions_in s d) its)))),
          )
      | inr q ↦
          let other = after ∙ ap (λ c. if c then some entry else get m id) q in
          (ap general_in other, rw q (ap (λ s. exceptions_in s d) other))
    ]

for_each-entry :
    (rows : List CalendarDateRow) (m : Calendars) {m' : Calendars}
    → for_each add_calendar_date rows m ≡ some m'
    → (id : String) (d : ℕ)
    → (general_in (get m' id) ≡ general_in (get m id))
      × (exceptions_in (get m' id) d ≡ last_exception rows id d (exceptions_in (get m id) d))
unfolding for_each last_exception
for_each-entry [] m h id d =
    let same = some-injective (sym h) in
    (ap (λ t. general_in (get t id)) same, ap (λ t. exceptions_in (get t id) d) same)
for_each-entry (row ∷ rows) m h id d =
    let (n, step, rest) = >>=-eq-some (add_calendar_date row m) _ h in
    let (general, exceptions) = for_each-entry rows n rest id d in
    let (general', exceptions') = add_calendar_date-entry row m step id d in
    (general ∙ general', exceptions ∙ ap (last_exception rows id d) exceptions')

-- The last row that passes the test, or `previous`.
unfoldable pub last_row : {Row : Type 0} → (Row → Bool) → List Row → Option Row → Option Row
last_row p [] previous = previous
last_row p (row ∷ rows) previous = last_row p rows (if p row then some row else previous)

-- The rows of the exception table for a service and a date, and of the calendar table for a service.
abbrev pub is_exception_for : String → ℕ → CalendarDateRow → Bool
is_exception_for id d row = row.service_id == id && Common.◌==◌ row.gtfs_date d

abbrev pub is_calendar_for : String → CalendarRow → Bool
is_calendar_for id row = row.service_id == id

last_exception-last_row :
    (rows : List CalendarDateRow) (id : String) (d : ℕ) (previous : Option CalendarDateRow)
    → last_exception rows id d (previous >>= λ row. exception_of row.exception_type)
      ≡ (last_row (is_exception_for id d) rows previous >>= λ row. exception_of row.exception_type)
unfolding last_exception last_row
last_exception-last_row [] id d previous = refl
last_exception-last_row (row ∷ rows) id d previous =
    ap (last_exception rows id d) (
      sym (
        if_app (λ (o : Option CalendarDateRow). o >>= λ r. exception_of r.exception_type)
          (is_exception_for id d row) (some row) previous))
    ∙ last_exception-last_row rows id d (if is_exception_for id d row then some row else previous)

abbrev general_of : CalendarRow → GeneralCalendar
general_of row = record {
  days = make_weekdays row;
  start_date = row.gtfs_start_date;
  end_date = row.gtfs_end_date;
}

last_calendar-last_row :
    (rows : List CalendarRow) (id : String) (previous : Option CalendarRow)
    → last_calendar rows id (previous >>= λ row. some (general_of row))
      ≡ (last_row (is_calendar_for id) rows previous >>= λ row. some (general_of row))
unfolding last_calendar last_row
last_calendar-last_row [] id previous = refl
last_calendar-last_row (row ∷ rows) id previous =
    ap (last_calendar rows id) (
      sym (
        if_app (λ (o : Option CalendarRow). o >>= λ r. some (general_of r)) (is_calendar_for id row)
          (some row) previous))
    ∙ last_calendar-last_row rows id (if is_calendar_for id row then some row else previous)

last_row-In :
    {Row : Type 0} (p : Row → Bool) (rows : List Row) (previous : Option Row) (row : Row)
    → last_row p rows previous ≡ some row
    → (previous ≡ some row) ⊎ In row rows
unfolding last_row
last_row-In p [] previous row e = inl e
last_row-In p (x ∷ rows) previous row e = elim (Bool-cases (p x)) [
  | inl passes ↦ elim (last_row-In p rows (some x) row (rw passes at e)) [
    | inl q ↦ inr (inl (some-injective (sym q)))
    | inr m ↦ inr (inr m)
  ]
  | inr fails ↦ elim (last_row-In p rows previous row (rw fails at e)) [
    | inl q ↦ inl q
    | inr m ↦ inr (inr m)
  ]
]

-- Where the rows are read without a panic, each has an exception.
exceptions_read :
    (rows : List CalendarDateRow) (m : Calendars) {m' : Calendars}
    → for_each add_calendar_date rows m ≡ some m'
    → (row : CalendarDateRow) → In row rows
    → (e : Exception) × (exception_of row.exception_type ≡ some e)
unfolding for_each add_calendar_date
exceptions_read [] m h row k = absurd k
exceptions_read (x ∷ rows) m h row k =
    let (n, step, rest) = >>=-eq-some (add_calendar_date x m) _ h in
    let (e, f, _) = >>=-eq-some (exception_of x.exception_type) _ step in
    elim k [
      | inl q ↦ (e, ap (λ (r : CalendarDateRow). exception_of r.exception_type) q ∙ f)
      | inr k' ↦ exceptions_read rows n rest row k'
    ]

-- The column of a calendar row for a day of the week.
abbrev pub column : CalendarRow → Weekday → Bool
column row mon = row.monday
column row tue = row.tuesday
column row wed = row.wednesday
column row thu = row.thursday
column row fri = row.friday
column row sat = row.saturday
column row sun = row.sunday

any-flagged :
    (f : Weekday → Bool) (entries : List (Bool × Weekday))
    → any f (
        map
          (λ (entry : Bool × Weekday). entry.1)
          (filter (λ (entry : Bool × Weekday). entry.0) entries))
      ≡ any (λ (entry : Bool × Weekday). f entry.1 && entry.0) entries
unfolding any filter
any-flagged f [] = refl
any-flagged f ((true, w) ∷ entries) = ground (arith, any-flagged f entries)
any-flagged f ((false, w) ∷ entries) = ground (arith, any-flagged f entries)

same_or_false : (b : Bool) → (if b then true else false) ≡ b
same_or_false b = ground arith

make_weekdays-column :
    (row : CalendarRow) (w : Weekday) → any (same_weekday w) (make_weekdays row) ≡ column row w
unfolding make_weekdays any
make_weekdays-column row mon = any-flagged (same_weekday mon) _ ∙ same_or_false row.monday
make_weekdays-column row tue = any-flagged (same_weekday tue) _ ∙ same_or_false row.tuesday
make_weekdays-column row wed = any-flagged (same_weekday wed) _ ∙ same_or_false row.wednesday
make_weekdays-column row thu = any-flagged (same_weekday thu) _ ∙ same_or_false row.thursday
make_weekdays-column row fri = any-flagged (same_weekday fri) _ ∙ same_or_false row.friday
make_weekdays-column row sat = any-flagged (same_weekday sat) _ ∙ same_or_false row.saturday
make_weekdays-column row sun = any-flagged (same_weekday sun) _ ∙ same_or_false row.sunday

abbrev pub is_one : ℤ → Bool
is_one (pos n) = Common.◌==◌ n 1
is_one (negsuc n) = false

with_exceptions-is_one :
    (weekday : ℕ → Weekday) (type : ℤ) (answer : Bool) {e : Exception}
    → exception_of type ≡ some e
    → with_exceptions weekday (exception_of type) answer ≡ is_one type
unfolding with_exceptions exception_of
with_exceptions-is_one weekday (pos n) answer h = ground (arith, h)
with_exceptions-is_one weekday (negsuc n) answer h = absurd (ground (arith, h))

-- Type 1 adds the service on the date.
abbrev pub adds : CalendarDateRow → Bool
adds row = is_one row.exception_type

module _ (weekday : ℕ → Weekday) where
  -- Whether the structure has the service running on the date.
  unfoldable pub is_running : Option CalendarUnified → ℕ → Bool
  is_running none d = false
  is_running (some service) d = datetime_in_service weekday service d

  is_running-parts :
      (s : Option CalendarUnified) (d : ℕ)
      → is_running s d
        ≡ with_exceptions weekday (exceptions_in s d) (in_general weekday (general_in s) d)
  unfolding is_running datetime_in_service with_exceptions in_general
  is_running-parts none d = refl
  is_running-parts (some service) d = refl

  -- A calendar row has the service running on the date.
  abbrev pub regular : CalendarRow → ℕ → Bool
  regular row d = column row (weekday d) && (leb row.gtfs_start_date d && leb d row.gtfs_end_date)

  -- What the tables say of a service on a date: the last exception row for both says it, and where
  -- there is none, the last calendar row of the service.
  abbrev pub by_rows : Option CalendarDateRow → Option CalendarRow → ℕ → Bool
  by_rows (some exception) calendar d = adds exception
  by_rows none (some calendar) d = regular calendar d
  by_rows none none d = false

  by_rows-found :
      (exception : Option CalendarDateRow) (calendar : Option CalendarRow) (d : ℕ)
      → ((row : CalendarDateRow)
          → exception ≡ some row
          → (e : Exception) × (exception_of row.exception_type ≡ some e))
      → with_exceptions weekday
          (exception >>= λ row. exception_of row.exception_type)
          (in_general weekday (calendar >>= λ row. some (general_of row)) d)
        ≡ by_rows exception calendar d
  unfolding with_exceptions in_general
  by_rows-found (some row) calendar d read =
      with_exceptions-is_one weekday row.exception_type _ (read row refl).1
  by_rows-found none (some row) d read = rw (make_weekdays-column row (weekday d)) refl
  by_rows-found none none d read = refl

  -- Where the rows are read without a panic, a service runs on a date as the last exception row for
  -- both says: it does if the row has type 1, and does not if it has type 2. Where there is none, it
  -- runs if the last calendar row of the service has the day of the week, and the date within its
  -- bounds.
  pub datetime_in_service_lem :
      (calendars : List CalendarRow) (calendar_dates : List CalendarDateRow) {m : Calendars}
      → make_calendar_structure_from_pg_single_chateau calendars calendar_dates ≡ some m
      → (id : String) (d : ℕ)
      → is_running (get m id) d
        ≡ by_rows
            (last_row (is_exception_for id d) calendar_dates none)
            (last_row (is_calendar_for id) calendars none)
            d
  unfolding make_calendar_structure_from_pg_single_chateau get
  datetime_in_service_lem calendars calendar_dates h id d =
      let (general, exceptions) =
        for_each-entry calendar_dates (insert_calendars calendars []) h id d in
      is_running-parts (get _ id) d
      ∙ ap₂ (λ e g. with_exceptions weekday e (in_general weekday g d))
          (exceptions
            ∙ (ap (last_exception calendar_dates id d)
                  (insert_calendars-exceptions calendars [] id d refl)
                ∙ last_exception-last_row calendar_dates id d none))
          (general
            ∙ (insert_calendars-general calendars [] id ∙ last_calendar-last_row calendars id none))
      ∙ by_rows-found (last_row (is_exception_for id d) calendar_dates none)
          (last_row (is_calendar_for id) calendars none) d
          (λ row last. elim (last_row-In (is_exception_for id d) calendar_dates none row last) [
            | inl q ↦ absurd (ground (arith, q))
            | inr k ↦ exceptions_read calendar_dates (insert_calendars calendars []) h row k
          ])
