-- ===== src/Creatives.antt =====
-- app/modules/creatives: the content workflow and the generation pipeline.
pub mod Lifecycle
pub mod Brief
pub mod Pricing
pub mod BrandProfile
pub mod Generation
pub mod PostingTime
pub mod Worker
pub mod Compliance
mod Tests
pub mod Endpoints
