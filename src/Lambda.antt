-- ===== src/Lambda.antt =====
-- Package `lambda`: the events and messages of the Lambda runtime's APIs.
pub mod Events
pub mod Responses
pub mod Requests
pub mod Client
pub mod Answers
pub mod Calls
pub mod Aws
mod Examples
