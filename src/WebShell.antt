-- ===== src/WebShell.antt =====
-- Web Shells: backend/src/ops_composer/repositories/web_shell.py and services/web_shell.py.
pub mod Store
pub mod Service
pub mod Steps
pub mod Create
pub mod Limits
pub mod Recovery
mod Examples
pub mod Claims
pub mod Ticket
