-- ===== src/Handler.antt =====
-- internal/handler: the answers to the requests. Decoding the body and finding the parameters of the
-- path and of the query is net/http's and chi's: the handlers are given the results. Inputs has what
-- the package itself makes of an address, a number and an id.
pub mod Inputs
pub mod Answers
pub mod Booking
pub mod Event
pub mod Account
pub mod Audit
pub mod Statuses
pub mod Updates
pub mod Logins
mod Tests
