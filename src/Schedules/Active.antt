-- ===== src/Schedules/Active.antt =====
-- The services that `minimum_day_filter` keeps: those that run on the given date or later.
pub mod Laws
use Prim.Native.String.{String}
use catenary_backend.Common.{
  ℕ, zero, suc, ◌+◌, ◌-◌, max, Bool, true, false, not, ◌&&◌, ◌||◌, Option, none, some, List, [],
  ◌∷◌, ltb, leb, ◌==◌, if◌then◌else◌, any,
}
use catenary_backend.Schedules.Feed.{
  Weekday, mon, tue, wed, thu, fri, sat, sun, Exception, added, deleted, Calendar, CalendarDate,
}

unfoldable pub scheduled : Calendar → Weekday → Bool
scheduled cal mon = cal.monday
scheduled cal tue = cal.tuesday
scheduled cal wed = cal.wednesday
scheduled cal thu = cal.thursday
scheduled cal fri = cal.friday
scheduled cal sat = cal.saturday
scheduled cal sun = cal.sunday

abbrev pub is_deleted : Exception → Bool
is_deleted added = false
is_deleted deleted = true

-- calendar_dates.map(…).unwrap_or(false)
unfoldable pub removed : Option (List CalendarDate) → ℕ → Bool
removed none current_date = false
removed (some dates) current_date =
    any (λ d. d.date == current_date && is_deleted d.exception_type) dates

-- if let Some(dates) = calendar_dates
unfoldable pub added_later : Option (List CalendarDate) → ℕ → Bool
added_later none naive_date = false
added_later (some dates) naive_date =
    any (λ d. not (is_deleted d.exception_type) && leb naive_date d.date) dates

-- `date.weekday()` of chrono is a parameter.
module _ (weekday : ℕ → Weekday) where
  unfoldable pub runs_on : Calendar → Option (List CalendarDate) → ℕ → Bool
  runs_on cal calendar_dates date =
      scheduled cal (weekday date) && not (removed calendar_dates date)

  -- while current_date <= cal.end_date: `rounds` days are left.
  unfoldable pub day_loop : Calendar → Option (List CalendarDate) → ℕ → ℕ → Bool
  day_loop cal calendar_dates zero current_date = false
  day_loop cal calendar_dates (suc rounds) current_date =
      let later = day_loop cal calendar_dates rounds (current_date + 1) in
      if runs_on cal calendar_dates current_date then true else later

  unfoldable pub calendar_active : Calendar → Option (List CalendarDate) → ℕ → Bool
  calendar_active cal calendar_dates naive_date =
      let start_date = max cal.start_date naive_date in
      if leb naive_date cal.end_date
      then day_loop cal calendar_dates (cal.end_date + 1 - start_date) start_date
      else false

  -- The flag `is_active` of a service.
  unfoldable pub is_active : Option Calendar → Option (List CalendarDate) → ℕ → Bool
  is_active none calendar_dates naive_date = added_later calendar_dates naive_date
  is_active (some cal) calendar_dates naive_date =
      calendar_active cal calendar_dates naive_date || added_later calendar_dates naive_date
