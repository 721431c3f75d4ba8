-- ===== src/Catalog.antt =====
-- The catalog (apps/api/src/modules/catalog): the inventory of products. Sellers, categories, product
-- pages and images are not modelled.
pub mod Inventory
