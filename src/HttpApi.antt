-- ===== src/HttpApi.antt =====
-- internal/adapters/httpapi: the handlers of the HTTP API over the services. The types of requests and
-- responses are generated from one description for the server and for the agent: Agent/Controlplane has
-- them.
pub mod Problems
pub mod Probes
pub mod Results
pub mod Requests
pub mod Configuration
pub mod Work
pub mod Health
pub mod Accounts
pub mod Accepted
pub mod Cleared
