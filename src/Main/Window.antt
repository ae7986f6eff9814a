-- ===== src/Main/Window.antt =====
-- How long support mode lasts, and how often the rapid checks run.
use forge_key.Main.Support.{Support}
