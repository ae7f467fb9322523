-- ===== src/Sanitize.antt =====
-- pkg/webui/sanitize, which makes the HTML of a message safe to show.
pub mod Css
pub mod Tags
