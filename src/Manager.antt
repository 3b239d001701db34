-- ===== src/Manager.antt =====
-- manager/: the service, its workflow coordinator and its cron scheduler. Every part is an action on
-- the state of `State`; the parts call one another as the Go code does.
pub mod Interface
pub mod Invoke
pub mod Observe
pub mod State
pub mod Frame
pub mod Repos
pub mod Plugins
pub mod Proplets
pub mod Workflow
pub mod Start
pub mod Create
pub mod Calm
pub mod Succeeds
pub mod Middleware
pub mod Launch
pub mod Results
pub mod Metrics
pub mod Rounds
pub mod Update
pub mod Cron
pub mod Listing
pub mod Shutdown
pub mod Stop
pub mod Handlers
