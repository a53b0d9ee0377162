-- ===== src/Enums/EMsgs.antt =====
-- The values of all enumerators of `enum class EMsg`
-- (include/steamclient/types/generated/SteamLanguage.hpp) in their order, in parts of the enum.
pub mod Slots
use steam_min_cpp.Prelude.{ℕ, List, [], ◌∷◌, ◌++◌}

-- Invalid to AMSetAccountTrustedRequest.
abbrev pub part_1 : List ℕ
part_1 =
    0 ∷ 1 ∷ 2 ∷ 100 ∷ 100 ∷ 113 ∷ 115 ∷ 120 ∷ 121 ∷ 123 ∷ 124 ∷ 126 ∷ 127 ∷ 129 ∷ 130 ∷ 131 ∷ 132
    ∷ 133 ∷ 134 ∷ 135 ∷ 136 ∷ 137 ∷ 139 ∷ 140 ∷ 141 ∷ 142 ∷ 143 ∷ 144 ∷ 145 ∷ 146 ∷ 147 ∷ 148 ∷ 149
    ∷ 150 ∷ 151 ∷ 152 ∷ 200 ∷ 200 ∷ 201 ∷ 202 ∷ 203 ∷ 204 ∷ 205 ∷ 215 ∷ 221 ∷ 225 ∷ 226 ∷ 227 ∷ 228
    ∷ 229 ∷ 230 ∷ 233 ∷ 234 ∷ 235 ∷ 236 ∷ 237 ∷ 238 ∷ 240 ∷ 241 ∷ 242 ∷ 243 ∷ 244 ∷ 245 ∷ 246 ∷ 247
    ∷ 300 ∷ 300 ∷ 301 ∷ 307 ∷ 308 ∷ 309 ∷ 316 ∷ 317 ∷ 318 ∷ 319 ∷ 320 ∷ 321 ∷ 322 ∷ 323 ∷ 324 ∷ 325
    ∷ 326 ∷ 327 ∷ 329 ∷ 330 ∷ 331 ∷ 332 ∷ 333 ∷ 334 ∷ 335 ∷ 336 ∷ 337 ∷ 338 ∷ 339 ∷ 340 ∷ 400 ∷ 402
    ∷ 403 ∷ 404 ∷ 405 ∷ 406 ∷ 408 ∷ 409 ∷ 410 ∷ 411 ∷ 412 ∷ 413 ∷ 414 ∷ 415 ∷ 416 ∷ 423 ∷ 424 ∷ 425
    ∷ 426 ∷ 429 ∷ 430 ∷ 431 ∷ 432 ∷ 433 ∷ 500 ∷ 504 ∷ 505 ∷ 508 ∷ 509 ∷ 510 ∷ 511 ∷ 512 ∷ 513 ∷ 514
    ∷ 515 ∷ 516 ∷ 517 ∷ 518 ∷ 519 ∷ []

-- AMCompletePurchase to ClientVACBanStatus.
abbrev pub part_2 : List ℕ
part_2 =
    521 ∷ 522 ∷ 523 ∷ 524 ∷ 525 ∷ 526 ∷ 527 ∷ 528 ∷ 529 ∷ 530 ∷ 531 ∷ 532 ∷ 533 ∷ 534 ∷ 535 ∷ 536
    ∷ 537 ∷ 538 ∷ 539 ∷ 540 ∷ 541 ∷ 542 ∷ 550 ∷ 551 ∷ 552 ∷ 553 ∷ 554 ∷ 555 ∷ 560 ∷ 561 ∷ 563 ∷ 564
    ∷ 565 ∷ 566 ∷ 567 ∷ 568 ∷ 569 ∷ 570 ∷ 571 ∷ 572 ∷ 573 ∷ 574 ∷ 575 ∷ 576 ∷ 577 ∷ 578 ∷ 579 ∷ 580
    ∷ 581 ∷ 582 ∷ 583 ∷ 584 ∷ 586 ∷ 587 ∷ 588 ∷ 589 ∷ 590 ∷ 591 ∷ 592 ∷ 593 ∷ 596 ∷ 597 ∷ 598 ∷ 600
    ∷ 600 ∷ 601 ∷ 602 ∷ 604 ∷ 605 ∷ 606 ∷ 607 ∷ 608 ∷ 609 ∷ 610 ∷ 611 ∷ 625 ∷ 628 ∷ 629 ∷ 630 ∷ 631
    ∷ 633 ∷ 634 ∷ 635 ∷ 636 ∷ 637 ∷ 638 ∷ 639 ∷ 640 ∷ 641 ∷ 642 ∷ 643 ∷ 644 ∷ 645 ∷ 646 ∷ 650 ∷ 700
    ∷ 703 ∷ 704 ∷ 706 ∷ 707 ∷ 708 ∷ 710 ∷ 712 ∷ 714 ∷ 715 ∷ 716 ∷ 717 ∷ 718 ∷ 726 ∷ 727 ∷ 728 ∷ 730
    ∷ 732 ∷ 736 ∷ 740 ∷ 741 ∷ 742 ∷ 743 ∷ 744 ∷ 745 ∷ 746 ∷ 747 ∷ 751 ∷ 755 ∷ 757 ∷ 758 ∷ 759 ∷ 760
    ∷ 761 ∷ 763 ∷ 764 ∷ 765 ∷ 766 ∷ 767 ∷ 768 ∷ 771 ∷ 773 ∷ 774 ∷ 779 ∷ 780 ∷ 782 ∷ []

-- ClientEncryptPct to BSQueryTransactionStatus.
abbrev pub part_3 : List ℕ
part_3 =
    784 ∷ 785 ∷ 791 ∷ 792 ∷ 796 ∷ 797 ∷ 798 ∷ 799 ∷ 800 ∷ 801 ∷ 802 ∷ 805 ∷ 807 ∷ 808 ∷ 809 ∷ 810
    ∷ 813 ∷ 814 ∷ 815 ∷ 818 ∷ 819 ∷ 820 ∷ 821 ∷ 822 ∷ 830 ∷ 831 ∷ 832 ∷ 839 ∷ 842 ∷ 845 ∷ 846 ∷ 848
    ∷ 849 ∷ 850 ∷ 851 ∷ 855 ∷ 856 ∷ 857 ∷ 858 ∷ 860 ∷ 880 ∷ 891 ∷ 892 ∷ 896 ∷ 897 ∷ 900 ∷ 901 ∷ 903
    ∷ 905 ∷ 906 ∷ 907 ∷ 908 ∷ 909 ∷ 910 ∷ 911 ∷ 918 ∷ 919 ∷ 920 ∷ 921 ∷ 922 ∷ 923 ∷ 936 ∷ 937 ∷ 938
    ∷ 939 ∷ 940 ∷ 941 ∷ 1000 ∷ 1000 ∷ 1004 ∷ 1005 ∷ 1006 ∷ 1010 ∷ 1019 ∷ 1020 ∷ 1023 ∷ 1024 ∷ 1025
    ∷ 1026 ∷ 1027 ∷ 1028 ∷ 1100 ∷ 1100 ∷ 1101 ∷ 1102 ∷ 1103 ∷ 1104 ∷ 1105 ∷ 1106 ∷ 1107 ∷ 1108
    ∷ 1109 ∷ 1110 ∷ 1111 ∷ 1112 ∷ 1114 ∷ 1115 ∷ 1116 ∷ 1117 ∷ 1118 ∷ 1119 ∷ 1120 ∷ 1121 ∷ 1122
    ∷ 1123 ∷ 1124 ∷ 1125 ∷ 1126 ∷ 1127 ∷ 1128 ∷ 1129 ∷ 1130 ∷ 1131 ∷ 1132 ∷ 1133 ∷ 1134 ∷ 1200
    ∷ 1200 ∷ 1201 ∷ 1202 ∷ 1203 ∷ 1204 ∷ 1300 ∷ 1300 ∷ 1301 ∷ 1302 ∷ 1303 ∷ 1304 ∷ 1305 ∷ 1400
    ∷ 1401 ∷ 1402 ∷ 1403 ∷ 1404 ∷ 1406 ∷ 1408 ∷ 1409 ∷ 1410 ∷ 1411 ∷ 1417 ∷ 1418 ∷ 1421 ∷ 1422
    ∷ 1425 ∷ 1426 ∷ []

-- BSQueryTransactionStatusResponse to GCHRelayToClient.
abbrev pub part_4 : List ℕ
part_4 =
    1427 ∷ 1431 ∷ 1432 ∷ 1433 ∷ 1434 ∷ 1435 ∷ 1437 ∷ 1438 ∷ 1440 ∷ 1441 ∷ 1445 ∷ 1446 ∷ 1448 ∷ 1449
    ∷ 1450 ∷ 1451 ∷ 1452 ∷ 1453 ∷ 1454 ∷ 1455 ∷ 1456 ∷ 1457 ∷ 1458 ∷ 1459 ∷ 1460 ∷ 1461 ∷ 1462
    ∷ 1463 ∷ 1464 ∷ 1465 ∷ 1468 ∷ 1469 ∷ 1470 ∷ 1471 ∷ 1472 ∷ 1473 ∷ 1474 ∷ 1475 ∷ 1476 ∷ 1477
    ∷ 1478 ∷ 1479 ∷ 1480 ∷ 1481 ∷ 1482 ∷ 1483 ∷ 1484 ∷ 1485 ∷ 1486 ∷ 1487 ∷ 1488 ∷ 1489 ∷ 1490
    ∷ 1491 ∷ 1492 ∷ 1493 ∷ 1494 ∷ 1495 ∷ 1496 ∷ 1497 ∷ 1498 ∷ 1499 ∷ 1500 ∷ 1501 ∷ 1502 ∷ 1503
    ∷ 1504 ∷ 1505 ∷ 1506 ∷ 1507 ∷ 1508 ∷ 1509 ∷ 1510 ∷ 1511 ∷ 1512 ∷ 1513 ∷ 1514 ∷ 1515 ∷ 1516
    ∷ 1517 ∷ 1518 ∷ 1519 ∷ 1600 ∷ 1601 ∷ 1603 ∷ 1604 ∷ 1605 ∷ 1606 ∷ 1607 ∷ 1608 ∷ 1610 ∷ 1611
    ∷ 1612 ∷ 1613 ∷ 1614 ∷ 1615 ∷ 1616 ∷ 1617 ∷ 1619 ∷ 1620 ∷ 1621 ∷ 1622 ∷ 1623 ∷ 1624 ∷ 1625
    ∷ 1626 ∷ 1627 ∷ 1628 ∷ 1629 ∷ 1630 ∷ 1631 ∷ 1700 ∷ 1701 ∷ 1702 ∷ 1703 ∷ 1704 ∷ 1705 ∷ 1706
    ∷ 2200 ∷ 2203 ∷ 2206 ∷ 2207 ∷ 2208 ∷ 2209 ∷ 2210 ∷ 2212 ∷ 2213 ∷ 2216 ∷ 2219 ∷ 2220 ∷ 2221
    ∷ 2222 ∷ 2223 ∷ []

-- GCHUpdateSession to AMSetClanPermissionSettings.
abbrev pub part_5 : List ℕ
part_5 =
    2224 ∷ 2225 ∷ 2226 ∷ 2227 ∷ 2228 ∷ 2229 ∷ 2230 ∷ 2231 ∷ 2232 ∷ 2233 ∷ 2234 ∷ 2235 ∷ 2236 ∷ 2237
    ∷ 2238 ∷ 2239 ∷ 2240 ∷ 2241 ∷ 2242 ∷ 2243 ∷ 2244 ∷ 2245 ∷ 2246 ∷ 2247 ∷ 2500 ∷ 2502 ∷ 2900
    ∷ 2902 ∷ 2903 ∷ 2904 ∷ 2905 ∷ 2906 ∷ 2907 ∷ 2908 ∷ 3000 ∷ 3000 ∷ 3001 ∷ 3002 ∷ 3100 ∷ 3150
    ∷ 3161 ∷ 3162 ∷ 3200 ∷ 3201 ∷ 3202 ∷ 3203 ∷ 3204 ∷ 3205 ∷ 3206 ∷ 3207 ∷ 3208 ∷ 3209 ∷ 3210
    ∷ 3211 ∷ 3212 ∷ 3213 ∷ 3214 ∷ 3400 ∷ 3401 ∷ 3402 ∷ 3403 ∷ 3404 ∷ 3406 ∷ 3600 ∷ 3601 ∷ 3602
    ∷ 3603 ∷ 3604 ∷ 3607 ∷ 3608 ∷ 3609 ∷ 3610 ∷ 3611 ∷ 3612 ∷ 3613 ∷ 3614 ∷ 3615 ∷ 3616 ∷ 3617
    ∷ 3618 ∷ 3619 ∷ 3620 ∷ 3621 ∷ 3622 ∷ 3623 ∷ 3624 ∷ 3625 ∷ 3626 ∷ 3628 ∷ 3629 ∷ 3630 ∷ 3631
    ∷ 4000 ∷ 4001 ∷ 4002 ∷ 4005 ∷ 4006 ∷ 4007 ∷ 4008 ∷ 4009 ∷ 4010 ∷ 4011 ∷ 4012 ∷ 4013 ∷ 4014
    ∷ 4015 ∷ 4016 ∷ 4017 ∷ 4018 ∷ 4019 ∷ 4020 ∷ 4021 ∷ []

-- AMSetClanPermissionSettingsResponse to AMSupportEnableOrDisable.
abbrev pub part_6 : List ℕ
part_6 =
    4022 ∷ 4023 ∷ 4024 ∷ 4025 ∷ 4026 ∷ 4039 ∷ 4040 ∷ 4041 ∷ 4042 ∷ 4043 ∷ 4044 ∷ 4045 ∷ 4046 ∷ 4047
    ∷ 4048 ∷ 4049 ∷ 4050 ∷ 4051 ∷ 4052 ∷ 4053 ∷ 4054 ∷ 4055 ∷ 4056 ∷ 4057 ∷ 4059 ∷ 4060 ∷ 4061
    ∷ 4062 ∷ 4063 ∷ 4064 ∷ 4065 ∷ 4066 ∷ 4067 ∷ 4068 ∷ 4069 ∷ 4070 ∷ 4071 ∷ 4072 ∷ 4073 ∷ 4074
    ∷ 4075 ∷ 4076 ∷ 4077 ∷ 4078 ∷ 4079 ∷ 4080 ∷ 4081 ∷ 4082 ∷ 4083 ∷ 4084 ∷ 4085 ∷ 4086 ∷ 4087
    ∷ 4090 ∷ 4091 ∷ 4092 ∷ 4093 ∷ 4095 ∷ 4096 ∷ 4097 ∷ 4098 ∷ 4099 ∷ 4100 ∷ 4101 ∷ 4102 ∷ 4103
    ∷ 4104 ∷ 4105 ∷ 4106 ∷ 4107 ∷ 4108 ∷ 4109 ∷ 4110 ∷ 4111 ∷ 4112 ∷ 4113 ∷ 4114 ∷ 4115 ∷ 4116
    ∷ 4117 ∷ 4118 ∷ 4119 ∷ 4120 ∷ 4121 ∷ 4122 ∷ 4123 ∷ 4124 ∷ 4125 ∷ 4126 ∷ 4127 ∷ 4128 ∷ 4129
    ∷ 4130 ∷ 4131 ∷ 4132 ∷ 4133 ∷ 4134 ∷ 4135 ∷ 4140 ∷ 4143 ∷ 4144 ∷ 4145 ∷ 4147 ∷ 4148 ∷ 4149
    ∷ 4152 ∷ 4153 ∷ 4155 ∷ 4156 ∷ 4157 ∷ 4158 ∷ 4159 ∷ 4160 ∷ 4161 ∷ 4162 ∷ 4163 ∷ 4164 ∷ 4165
    ∷ 4166 ∷ 4172 ∷ 4173 ∷ 4174 ∷ 4175 ∷ 4184 ∷ 4185 ∷ 4190 ∷ 4191 ∷ 4194 ∷ 4195 ∷ 4197 ∷ 4198
    ∷ 4199 ∷ []

-- AMGetPurchaseStatus to AMCompleteExternalPurchase.
abbrev pub part_7 : List ℕ
part_7 =
    4206 ∷ 4209 ∷ 4210 ∷ 4211 ∷ 4212 ∷ 4213 ∷ 4216 ∷ 4219 ∷ 4220 ∷ 4222 ∷ 4223 ∷ 4224 ∷ 4231 ∷ 4232
    ∷ 4236 ∷ 4241 ∷ 4242 ∷ 4244 ∷ 4245 ∷ 4246 ∷ 4247 ∷ 4248 ∷ 4249 ∷ 4250 ∷ 4251 ∷ 4252 ∷ 4255
    ∷ 4256 ∷ 4258 ∷ 4259 ∷ 4260 ∷ 4261 ∷ 4262 ∷ 4263 ∷ 4264 ∷ 4265 ∷ 4266 ∷ 4267 ∷ 4268 ∷ 4269
    ∷ 4270 ∷ 4271 ∷ 4272 ∷ 4276 ∷ 4277 ∷ 4278 ∷ 4279 ∷ 4280 ∷ 4281 ∷ 4282 ∷ 4283 ∷ 4284 ∷ 4285
    ∷ 4286 ∷ 4287 ∷ 4288 ∷ 4289 ∷ 4290 ∷ 4294 ∷ 4295 ∷ 4298 ∷ 4299 ∷ 4300 ∷ 4301 ∷ 4302 ∷ 4305
    ∷ 4307 ∷ 4308 ∷ 4309 ∷ 4310 ∷ 4311 ∷ 4312 ∷ 4313 ∷ 4314 ∷ 4315 ∷ 4316 ∷ 4317 ∷ 4320 ∷ 4321
    ∷ 4322 ∷ 4323 ∷ 4324 ∷ 4325 ∷ 4326 ∷ 4327 ∷ 4328 ∷ 4329 ∷ 4330 ∷ 4331 ∷ 4332 ∷ 4333 ∷ 4334
    ∷ 4335 ∷ 4336 ∷ 4337 ∷ 4338 ∷ 4339 ∷ 4340 ∷ 4341 ∷ 4342 ∷ 4344 ∷ 4345 ∷ 4346 ∷ 4347 ∷ 4348
    ∷ 4349 ∷ 4350 ∷ 4351 ∷ 4352 ∷ 4353 ∷ 4354 ∷ 4355 ∷ 4356 ∷ 4357 ∷ 4358 ∷ 4359 ∷ 4360 ∷ 4361
    ∷ 4362 ∷ 4363 ∷ 4364 ∷ 4365 ∷ 4366 ∷ 4367 ∷ 4368 ∷ 4372 ∷ 4373 ∷ 4374 ∷ 4375 ∷ 4376 ∷ 4377
    ∷ 4378 ∷ 4379 ∷ 4380 ∷ 4381 ∷ 4382 ∷ 4383 ∷ []

-- AMCompleteExternalPurchaseResponse to ClientCheckAppBetaPassword.
abbrev pub part_8 : List ℕ
part_8 =
    4384 ∷ 4385 ∷ 4386 ∷ 4387 ∷ 4388 ∷ 4389 ∷ 4390 ∷ 4391 ∷ 4392 ∷ 4393 ∷ 4394 ∷ 4395 ∷ 4396 ∷ 4397
    ∷ 4398 ∷ 4399 ∷ 4400 ∷ 4401 ∷ 4402 ∷ 4403 ∷ 4404 ∷ 4405 ∷ 4406 ∷ 4407 ∷ 4408 ∷ 4409 ∷ 4410
    ∷ 4411 ∷ 4412 ∷ 4413 ∷ 4414 ∷ 4415 ∷ 4416 ∷ 4417 ∷ 4418 ∷ 4419 ∷ 4420 ∷ 4421 ∷ 4422 ∷ 4423
    ∷ 4424 ∷ 4425 ∷ 5000 ∷ 5001 ∷ 5002 ∷ 5003 ∷ 5004 ∷ 5005 ∷ 5006 ∷ 5007 ∷ 5008 ∷ 5009 ∷ 5010
    ∷ 5011 ∷ 5012 ∷ 5013 ∷ 5014 ∷ 5200 ∷ 5202 ∷ 5203 ∷ 5204 ∷ 5205 ∷ 5206 ∷ 5207 ∷ 5210 ∷ 5211
    ∷ 5212 ∷ 5213 ∷ 5214 ∷ 5215 ∷ 5216 ∷ 5217 ∷ 5218 ∷ 5219 ∷ 5220 ∷ 5226 ∷ 5227 ∷ 5228 ∷ 5229
    ∷ 5230 ∷ 5231 ∷ 5232 ∷ 5233 ∷ 5234 ∷ 5235 ∷ 5236 ∷ 5237 ∷ 5238 ∷ 5239 ∷ 5240 ∷ 5241 ∷ 5242
    ∷ 5243 ∷ 5244 ∷ 5245 ∷ 5246 ∷ 5247 ∷ 5248 ∷ 5249 ∷ 5250 ∷ 5251 ∷ 5252 ∷ 5253 ∷ 5254 ∷ 5400
    ∷ 5401 ∷ 5402 ∷ 5403 ∷ 5404 ∷ 5405 ∷ 5406 ∷ 5407 ∷ 5408 ∷ 5410 ∷ 5411 ∷ 5412 ∷ 5413 ∷ 5414
    ∷ 5415 ∷ 5416 ∷ 5417 ∷ 5418 ∷ 5419 ∷ 5426 ∷ 5427 ∷ 5429 ∷ 5430 ∷ 5431 ∷ 5432 ∷ 5433 ∷ 5434
    ∷ 5435 ∷ 5438 ∷ 5439 ∷ 5440 ∷ 5443 ∷ 5444 ∷ 5445 ∷ 5446 ∷ 5448 ∷ 5449 ∷ 5450 ∷ []

-- ClientCheckAppBetaPasswordResponse to DFSPurgeFile.
abbrev pub part_9 : List ℕ
part_9 =
    5451 ∷ 5452 ∷ 5453 ∷ 5454 ∷ 5455 ∷ 5456 ∷ 5457 ∷ 5458 ∷ 5459 ∷ 5460 ∷ 5461 ∷ 5463 ∷ 5464 ∷ 5466
    ∷ 5467 ∷ 5468 ∷ 5469 ∷ 5470 ∷ 5480 ∷ 5481 ∷ 5482 ∷ 5483 ∷ 5484 ∷ 5485 ∷ 5486 ∷ 5487 ∷ 5488
    ∷ 5489 ∷ 5490 ∷ 5491 ∷ 5492 ∷ 5493 ∷ 5494 ∷ 5495 ∷ 5496 ∷ 5497 ∷ 5498 ∷ 5500 ∷ 5501 ∷ 5502
    ∷ 5503 ∷ 5504 ∷ 5505 ∷ 5506 ∷ 5507 ∷ 5508 ∷ 5509 ∷ 5510 ∷ 5511 ∷ 5512 ∷ 5514 ∷ 5515 ∷ 5516
    ∷ 5517 ∷ 5518 ∷ 5519 ∷ 5520 ∷ 5521 ∷ 5522 ∷ 5523 ∷ 5524 ∷ 5525 ∷ 5526 ∷ 5527 ∷ 5528 ∷ 5529
    ∷ 5530 ∷ 5531 ∷ 5532 ∷ 5535 ∷ 5536 ∷ 5537 ∷ 5538 ∷ 5539 ∷ 5540 ∷ 5541 ∷ 5542 ∷ 5543 ∷ 5544
    ∷ 5545 ∷ 5546 ∷ 5547 ∷ 5548 ∷ 5549 ∷ 5550 ∷ 5551 ∷ 5552 ∷ 5553 ∷ 5554 ∷ 5555 ∷ 5556 ∷ 5557
    ∷ 5558 ∷ 5559 ∷ 5560 ∷ 5561 ∷ 5562 ∷ 5563 ∷ 5564 ∷ 5565 ∷ 5566 ∷ 5567 ∷ 5568 ∷ 5569 ∷ 5570
    ∷ 5571 ∷ 5572 ∷ 5573 ∷ 5574 ∷ 5575 ∷ 5576 ∷ 5577 ∷ 5578 ∷ 5581 ∷ 5582 ∷ 5583 ∷ 5584 ∷ 5585
    ∷ 5586 ∷ 5587 ∷ 5588 ∷ 5589 ∷ 5590 ∷ 5591 ∷ 5592 ∷ 5593 ∷ 5594 ∷ 5595 ∷ 5596 ∷ 5597 ∷ 5598
    ∷ 5599 ∷ 5600 ∷ 5601 ∷ 5602 ∷ 5603 ∷ 5604 ∷ 5605 ∷ 5606 ∷ 5607 ∷ 5608 ∷ []

-- DFSRouteFile to UCMPublishedFileReported.
abbrev pub part_10 : List ℕ
part_10 =
    5609 ∷ 5610 ∷ 5611 ∷ 5612 ∷ 5613 ∷ 5614 ∷ 5615 ∷ 5616 ∷ 5617 ∷ 5618 ∷ 5619 ∷ 5620 ∷ 5621 ∷ 5622
    ∷ 5623 ∷ 5624 ∷ 5625 ∷ 5626 ∷ 5627 ∷ 5800 ∷ 5812 ∷ 5813 ∷ 5827 ∷ 5828 ∷ 5829 ∷ 5830 ∷ 5831
    ∷ 5832 ∷ 5833 ∷ 5834 ∷ 5836 ∷ 5837 ∷ 5844 ∷ 5847 ∷ 5848 ∷ 5849 ∷ 6200 ∷ 6201 ∷ 6202 ∷ 6400
    ∷ 6401 ∷ 6403 ∷ 6404 ∷ 6405 ∷ 6406 ∷ 6407 ∷ 6500 ∷ 6501 ∷ 6502 ∷ 6503 ∷ 6504 ∷ 6505 ∷ 6506
    ∷ 6507 ∷ 6508 ∷ 6509 ∷ 6600 ∷ 6601 ∷ 6602 ∷ 6603 ∷ 6604 ∷ 6605 ∷ 6606 ∷ 6607 ∷ 6608 ∷ 6609
    ∷ 6610 ∷ 6611 ∷ 6612 ∷ 6613 ∷ 6614 ∷ 6615 ∷ 6616 ∷ 6617 ∷ 6618 ∷ 6619 ∷ 6620 ∷ 6621 ∷ 6622
    ∷ 6623 ∷ 6624 ∷ 6625 ∷ 6626 ∷ 6627 ∷ 6628 ∷ 6629 ∷ 6800 ∷ 6801 ∷ 6802 ∷ 6803 ∷ 6804 ∷ 6805
    ∷ 6806 ∷ 6807 ∷ 6808 ∷ 6809 ∷ 6810 ∷ 6811 ∷ 6812 ∷ 6813 ∷ 6814 ∷ 6815 ∷ 7000 ∷ 7001 ∷ 7002
    ∷ 7003 ∷ 7004 ∷ 7005 ∷ 7006 ∷ 7007 ∷ 7100 ∷ 7101 ∷ 7200 ∷ 7300 ∷ 7301 ∷ 7302 ∷ 7307 ∷ 7308
    ∷ 7309 ∷ 7310 ∷ 7311 ∷ 7312 ∷ 7315 ∷ 7316 ∷ 7317 ∷ 7318 ∷ 7321 ∷ 7322 ∷ 7325 ∷ 7326 ∷ 7327
    ∷ 7328 ∷ 7329 ∷ 7330 ∷ 7331 ∷ 7332 ∷ 7333 ∷ 7337 ∷ 7338 ∷ 7339 ∷ []

-- UCMUpdatePublishedFileIncompatibleStatus to ClientPICSProductInfoRequest.
abbrev pub part_11 : List ℕ
part_11 =
    7340 ∷ 7341 ∷ 7342 ∷ 7343 ∷ 7344 ∷ 7347 ∷ 7348 ∷ 7349 ∷ 7350 ∷ 7351 ∷ 7352 ∷ 7353 ∷ 7354 ∷ 7355
    ∷ 7356 ∷ 7359 ∷ 7360 ∷ 7361 ∷ 7364 ∷ 7365 ∷ 7366 ∷ 7367 ∷ 7368 ∷ 7369 ∷ 7370 ∷ 7371 ∷ 7378
    ∷ 7379 ∷ 7380 ∷ 7381 ∷ 7382 ∷ 7383 ∷ 7384 ∷ 7385 ∷ 7500 ∷ 7501 ∷ 7502 ∷ 7503 ∷ 7504 ∷ 7505
    ∷ 7506 ∷ 7507 ∷ 7508 ∷ 7509 ∷ 7510 ∷ 7511 ∷ 7512 ∷ 7513 ∷ 7514 ∷ 7515 ∷ 7516 ∷ 7517 ∷ 7518
    ∷ 7519 ∷ 7520 ∷ 7521 ∷ 7522 ∷ 7523 ∷ 7524 ∷ 7525 ∷ 7526 ∷ 7527 ∷ 7528 ∷ 7529 ∷ 7530 ∷ 7600
    ∷ 7600 ∷ 7601 ∷ 7602 ∷ 7603 ∷ 7604 ∷ 7605 ∷ 7606 ∷ 7607 ∷ 7700 ∷ 7701 ∷ 7702 ∷ 7703 ∷ 7704
    ∷ 7705 ∷ 7706 ∷ 7707 ∷ 7708 ∷ 7711 ∷ 7712 ∷ 7713 ∷ 7714 ∷ 7800 ∷ 7800 ∷ 7801 ∷ 7803 ∷ 7804
    ∷ 7805 ∷ 7806 ∷ 7807 ∷ 7808 ∷ 7900 ∷ 7900 ∷ 7901 ∷ 7902 ∷ 8000 ∷ 8100 ∷ 8100 ∷ 8101 ∷ 8102
    ∷ 8103 ∷ 8104 ∷ 8105 ∷ 8106 ∷ 8107 ∷ 8108 ∷ 8200 ∷ 8300 ∷ 8300 ∷ 8301 ∷ 8303 ∷ 8304 ∷ 8305
    ∷ 8306 ∷ 8400 ∷ 8401 ∷ 8402 ∷ 8500 ∷ 8503 ∷ 8504 ∷ 8507 ∷ 8508 ∷ 8509 ∷ 8510 ∷ 8511 ∷ 8512
    ∷ 8513 ∷ 8600 ∷ 8600 ∷ 8601 ∷ 8700 ∷ 8700 ∷ 8701 ∷ 8800 ∷ 8800 ∷ 8900 ∷ 8901 ∷ 8902 ∷ 8903 ∷ []

-- ClientPICSProductInfoResponse to ClientPendingGameLaunchResponse.
abbrev pub part_12 : List ℕ
part_12 =
    8904 ∷ 8905 ∷ 8906 ∷ 8907 ∷ 8908 ∷ 9000 ∷ 9000 ∷ 9001 ∷ 9002 ∷ 9100 ∷ 9100 ∷ 9101 ∷ 9102 ∷ 9103
    ∷ 9104 ∷ 9105 ∷ 9106 ∷ 9107 ∷ 9110 ∷ 9111 ∷ 9112 ∷ 9113 ∷ 9114 ∷ 9115 ∷ 9116 ∷ 9117 ∷ 9118
    ∷ 9119 ∷ 9120 ∷ 9121 ∷ 9122 ∷ 9123 ∷ 9124 ∷ 9125 ∷ 9126 ∷ 9127 ∷ 9128 ∷ 9129 ∷ 9130 ∷ 9131
    ∷ 9132 ∷ 9133 ∷ 9134 ∷ 9135 ∷ 9200 ∷ 9200 ∷ 9201 ∷ 9202 ∷ 9203 ∷ 9300 ∷ 9330 ∷ 9331 ∷ 9400
    ∷ 9400 ∷ 9401 ∷ 9402 ∷ 9405 ∷ 9406 ∷ 9407 ∷ 9408 ∷ 9500 ∷ 9500 ∷ 9501 ∷ 9502 ∷ 9503 ∷ 9504
    ∷ 9505 ∷ 9506 ∷ 9507 ∷ 9508 ∷ 9509 ∷ 9510 ∷ 9511 ∷ 9512 ∷ 9513 ∷ 9514 ∷ 9515 ∷ 9516 ∷ 9517
    ∷ 9518 ∷ 9519 ∷ 9520 ∷ 9521 ∷ 9522 ∷ 9600 ∷ 9600 ∷ 9601 ∷ 9700 ∷ 9700 ∷ 9701 ∷ 9702 ∷ 9703
    ∷ 9704 ∷ 9800 ∷ 9800 ∷ 9801 ∷ 9802 ∷ 9803 ∷ 9804 ∷ 9805 ∷ 9806 ∷ 9807 ∷ 9808 ∷ 9900 ∷ 9900
    ∷ 9901 ∷ 9902 ∷ 9903 ∷ 9999 ∷ 10000 ∷ 10000 ∷ 10100 ∷ 10100 ∷ 10101 ∷ 10102 ∷ 10103 ∷ 10104
    ∷ 10105 ∷ 10106 ∷ 12000 ∷ 12000 ∷ 12001 ∷ 12100 ∷ 12100 ∷ 12200 ∷ 12200 ∷ 12201 ∷ 12202 ∷ 12203
    ∷ 12204 ∷ 12300 ∷ 12301 ∷ []

abbrev pub enumerators : List ℕ
enumerators =
    part_1 ++ part_2 ++ part_3 ++ part_4 ++ part_5 ++ part_6 ++ part_7 ++ part_8 ++ part_9
    ++ part_10 ++ part_11 ++ part_12
