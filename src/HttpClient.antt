-- ===== src/HttpClient.antt =====
-- The package httpclient (httpclient/HttpClient.go): configuration, URLs, requests, downloads and
-- client certificates.
pub mod Config
pub mod Url
pub mod Tls
pub mod Request
pub mod Download
mod Tests
