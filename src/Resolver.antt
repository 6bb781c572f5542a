-- ===== src/Resolver.antt =====
-- url_redirect_resolver/resolver.py: the bounded observation of a chain of HTTP redirects. The parsing
-- of targets, the test of an address, the join of a location and the network are parameters.
pub mod Loop
pub mod Bounds
pub mod Distinct
mod Tests
