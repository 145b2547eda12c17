-- ===== src/Crawler.antt =====
-- crawler/crawler: peer.go, seeker.go, seekerProc.go, crawlerProc.go, buffer.go and the
-- filter and the buffer of crawler.go. Crawler/Peers has the peers, Crawler/Seeker what finds them;
-- Crawler/Reported and Crawler/Retries prove.
pub mod Peers
pub mod Seeker
pub mod Reported
pub mod Retries
pub mod Loop
mod Tests
