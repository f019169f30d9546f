-- ===== src/Sealed.antt =====
-- shared/sealed.mjs: a post that says nothing about itself. Sealed/Rows is the author's rules, Sealed/Post
-- what an author makes, Sealed/Reading what a reader tries. What the source draws at random, and the gate,
-- are the record `Draws`; cryptography is the record `Primitives` of the reader policies.
pub mod Rows
pub mod Post
pub mod Reading
pub mod Shares
pub mod Layout
pub mod Opened
pub mod RoundTrip
pub mod Slots
pub mod Keyring
pub mod Provided
pub mod Tests
