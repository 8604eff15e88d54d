-- ===== src/Auth.antt =====
-- auth.py, and the password form of app.py: who may log in, how often they may try, where they are
-- sent, and which users there are.
pub mod Lockout
pub mod Login
pub mod Redirect
pub mod Users
mod Tests
