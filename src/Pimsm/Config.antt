-- ===== src/Pimsm/Config.antt =====
-- apps/pimc/config/JPConfig.hpp: what the router is to join and prune.
use pimc_toolkit.Common.{List, Option}
use pimc_toolkit.Net.Address.{IPv4Address}

pub record Rpt : Type 0 where
  pub rp : IPv4Address
  pub prunes : List IPv4Address

pub record GroupConfig : Type 0 where
  pub group : IPv4Address
  pub rpt : Option Rpt
  pub spt : List IPv4Address

pub record JpConfig : Type 0 where
  pub groups : List GroupConfig
