-- ===== src/Planner.antt =====
-- The personal planner: scheduler/models/personal_task.py, scheduler/forms.py and scheduler/views.
pub mod Model
pub mod Breaks
pub mod Forms
pub mod Calendar
pub mod Copying
pub mod Analytics
pub mod Prayers
pub mod Editing
pub mod Timeline
pub mod Subtasks
pub mod Projects
pub mod Examples
pub mod ViewExamples
mod EditingExamples
mod AnalyticsExamples
mod PrayerExamples
mod DayExamples
