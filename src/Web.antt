-- ===== src/Web.antt =====
-- apps/web: the client of the API, the proxy before the API, and the form that asks for a sponsorship.
pub mod ApiClient
pub mod Proxy
pub mod RequestForm
