-- ===== src/Cli.antt =====
-- tunstrap/cli.py: the commands.
pub mod Kill
pub mod Options
pub mod Start
pub mod Stop
pub mod Run
