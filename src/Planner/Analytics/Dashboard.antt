-- ===== src/Planner/Analytics/Dashboard.antt =====
-- analytics_dashboard of scheduler/views/analytics_views.py. Of an alert its icon and its message are
-- left out, which only say the figures again; a percentage below a limit is `below` of its fraction.
use daily_scheduler.Base.{
  ℕ, String, Bool, not, ◌&&◌, some, List, [], ◌∷◌, ◌++◌, ltb, str_eq, if◌then◌else◌,
}
use daily_scheduler.Planner.Model.{
  TaskTable, SubTaskTable, PrayerTable, PrayerName, non_negotiable, secondary, fun,
}
use daily_scheduler.Planner.Subtasks.{below}
use daily_scheduler.Planner.Analytics.{
  Stats, DayStats, calculate_completion_stats, get_daily_stats, calculate_subtask_completion_stats,
  get_daily_subtask_stats, calculate_prayer_completion_stats, get_daily_prayer_stats,
  get_prayer_stats_by_name,
}
use daily_scheduler.Planner.Analytics.Dates.{Months, get_date_range}

pub data AlertType : Type 0 where
  danger warning info : AlertType

pub record Alert : Type 0 where
  pub kind : AlertType
  pub title : String

abbrev alert : AlertType → String → Alert
alert kind title = record { kind = kind; title = title }

-- More incomplete than complete ones, among some at all.
abbrev pub is_behind : Stats → Bool
is_behind s = ltb 0 s.total && ltb s.completed s.incomplete

unfoldable pub prayer_alerts : Stats → List Alert
prayer_alerts s =
    if ltb 0 s.total
    then (if below 50 s.completed s.total
        then alert danger "Prayer Completion Alert" ∷ []
        else if below 75 s.completed s.total
        then alert info "Prayer Completion Notice" ∷ []
        else [])
    else []

unfoldable pub alerts_of : Stats → Stats → Stats → List Alert
unfolding prayer_alerts
alerts_of non_negotiable_stats secondary_stats prayer_stats =
    (if is_behind non_negotiable_stats then alert danger "Non-Negotiables Alert" ∷ [] else [])
    ++ ((if is_behind secondary_stats then alert warning "Secondary Tasks Warning" ∷ [] else [])
        ++ prayer_alerts prayer_stats)

-- The figures of a dashboard, all of which are computed on every request.
pub record Figures : Type 0 where
  pub non_negotiable_stats : Stats
  pub secondary_stats : Stats
  pub fun_stats : Stats
  pub subtask_stats : Stats
  pub prayer_stats : Stats
  pub prayer_breakdown : List (PrayerName × Stats)
  pub non_negotiable_daily : List DayStats
  pub secondary_daily : List DayStats
  pub fun_daily : List DayStats
  pub subtask_daily : List DayStats
  pub prayer_daily : List DayStats

-- A value of the dictionary `context_stats`.
pub data Shown : Type 0 where
  stats : Stats → Shown
  breakdown : List (PrayerName × Stats) → Shown
  daily_stats : List DayStats → Shown

abbrev Context : Type 0
Context = List (String × Shown)

abbrev prayer_context : Figures → Context
prayer_context f =
    ("prayer_stats", stats f.prayer_stats)
    ∷ ("prayer_breakdown", breakdown f.prayer_breakdown)
    ∷ ("prayer_daily", daily_stats f.prayer_daily)
    ∷ []

abbrev subtask_context : Figures → Context
subtask_context f =
    ("subtask_stats", stats f.subtask_stats) ∷ ("subtask_daily", daily_stats f.subtask_daily) ∷ []

abbrev whole_context : Figures → Context
whole_context f =
    ("non_negotiable_stats", stats f.non_negotiable_stats)
    ∷ ("secondary_stats", stats f.secondary_stats)
    ∷ ("fun_stats", stats f.fun_stats)
    ∷ ("subtask_stats", stats f.subtask_stats)
    ∷ ("prayer_stats", stats f.prayer_stats)
    ∷ ("prayer_breakdown", breakdown f.prayer_breakdown)
    ∷ ("non_negotiable_daily", daily_stats f.non_negotiable_daily)
    ∷ ("secondary_daily", daily_stats f.secondary_daily)
    ∷ ("fun_daily", daily_stats f.fun_daily)
    ∷ ("subtask_daily", daily_stats f.subtask_daily)
    ∷ ("prayer_daily", daily_stats f.prayer_daily)
    ∷ []

-- The branches on the view type, and the ones on the category, which replace the whole context.
unfoldable pub view_context : String → Figures → Context
view_context view_type f =
    if str_eq view_type "prayers"
    then prayer_context f
    else if str_eq view_type "subtasks"
    then subtask_context f
    else whole_context f

unfoldable pub category_context : String → Figures → Context → Context
category_context category f context =
    if str_eq category "non_negotiable"
    then ("non_negotiable_stats", stats f.non_negotiable_stats)
      ∷ ("non_negotiable_daily", daily_stats f.non_negotiable_daily)
      ∷ []
    else if str_eq category "secondary"
    then ("secondary_stats", stats f.secondary_stats)
      ∷ ("secondary_daily", daily_stats f.secondary_daily)
      ∷ []
    else if str_eq category "fun"
    then ("fun_stats", stats f.fun_stats) ∷ ("fun_daily", daily_stats f.fun_daily) ∷ []
    else context

unfoldable pub context_stats : String → String → Figures → Context
unfolding view_context category_context
context_stats view_type category f =
    if not (str_eq category "all")
      && (not (str_eq view_type "prayers") && not (str_eq view_type "subtasks"))
    then category_context category f (view_context view_type f)
    else view_context view_type f

pub record Dashboard : Type 0 where
  pub filter_type : String
  pub view_type : String
  pub category : String
  pub start_date : ℕ
  pub end_date : ℕ
  pub alerts : List Alert
  pub context : List (String × Shown)

module _ (c : Months) (t : TaskTable) (s : SubTaskTable) (p : PrayerTable) where
  unfoldable pub figures : ℕ × ℕ → t.Db → s.Db → p.Db → Figures
  figures (start_date, end_date) d e f = record {
    non_negotiable_stats = calculate_completion_stats t start_date end_date (some non_negotiable) d;
    secondary_stats = calculate_completion_stats t start_date end_date (some secondary) d;
    fun_stats = calculate_completion_stats t start_date end_date (some fun) d;
    subtask_stats = calculate_subtask_completion_stats t s start_date end_date d e;
    prayer_stats = calculate_prayer_completion_stats p start_date end_date f;
    prayer_breakdown = get_prayer_stats_by_name p start_date end_date f;
    non_negotiable_daily = get_daily_stats t start_date end_date (some non_negotiable) d;
    secondary_daily = get_daily_stats t start_date end_date (some secondary) d;
    fun_daily = get_daily_stats t start_date end_date (some fun) d;
    subtask_daily = get_daily_subtask_stats t s start_date end_date d e;
    prayer_daily = get_daily_prayer_stats p start_date end_date f;
  }

  unfoldable pub analytics_dashboard : ℕ → String → String → String → t.Db → s.Db → p.Db → Dashboard
  unfolding figures alerts_of context_stats
  analytics_dashboard today filter_type view_type category d e f =
      let range = get_date_range c today filter_type in
      let all = figures range d e f in
      record {
        filter_type = filter_type;
        view_type = view_type;
        category = category;
        start_date = range.0;
        end_date = range.1;
        alerts = alerts_of all.non_negotiable_stats all.secondary_stats all.prayer_stats;
        context = context_stats view_type category all;
      }
