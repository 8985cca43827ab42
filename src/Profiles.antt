-- ===== src/Profiles.antt =====
-- dashboard/src/pages/Profiles.jsx: the list of profiles, and the form that creates and edits one.
-- A profile's spec is a value; `prop` reads `?.` and also `.`, which agree on the objects that
-- `Spec.is_spec` describes.
pub mod Catalog
pub mod Spec
pub mod Hba
pub mod Form
pub mod Cron
pub mod Changes
pub mod Report
pub mod History
pub mod Page
