-- ===== src/Pages.antt =====
-- Pages and contexts of dashboard/src around the data: the pages of a satellite's logs and of
-- the events, the theme, the toasts and the badges.
pub mod Badges
pub mod Events
pub mod Logs
pub mod Csv
pub mod Theme
pub mod Toast
