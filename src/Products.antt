-- ===== src/Products.antt =====
-- app/modules/products/ and app/modules/sub_products/: a company's products, who works on them, and
-- their sub-products.
pub mod Catalogue
pub mod SocialAccounts
pub mod SubProducts
pub mod Team
mod Tests
